-- ===== src/ErrorPropagation/Ranked.antt =====
-- src/error_propagation.rs: what the matching handlers are, and their order.
use tricti.Base.{
  ◌≡◌, refl, subst, String, Bool, true, Bool-cases, leb, inl, inr, arith, none, List, [], ◌∷◌, ◌++◌,
  All, All-map, All-append, any, ap, ◌∙◌, ◌||◌, ==_iff, ==_refl, ◌==◌, text_key, retain,
}
use tricti.Base.HashMap.{HashMap, get, Entries, HasUniqueKeys}
use tricti.Base.Sort.{sort_by, insert_sorted, IsSorted, sort_by-IsSorted}
use tricti.ErrorPropagation.State.{AsyncExecutionError, ErrorHandler, ErrorPropagationManager}
use tricti.ErrorPropagation.Matching.{
  error_type_name, matches_error_pattern, matching_of, own_handlers, other_handlers, dedup_after,
  dedup, comes_first, find_matching_handlers,
}

-- A list and a sorted list of the same elements.
module _ {ℓ κ} {A : Type ℓ} (le : A → A → Bool) (P : A → Type κ) where
  insert_sorted-All : (x : A) (ys : List A) → P x → All P ys → All P (insert_sorted le x ys)
  unfolding insert_sorted
  insert_sorted-All x [] p h = (p, tt)
  insert_sorted-All x (y ∷ ys) p h = elim (Bool-cases (le x y)) [
    | inl e ↦ rw e (p, h)
    | inr e ↦ rw e (h.0, insert_sorted-All x ys p h.1)
  ]

  sort_by-All : (xs : List A) → All P xs → All P (sort_by le xs)
  unfolding sort_by
  sort_by-All [] h = tt
  sort_by-All (x ∷ xs) h = insert_sorted-All x (sort_by le xs) h.0 (sort_by-All xs h.1)

module _ {κ} (P : ErrorHandler → Type κ) where
  dedup_after-All :
      (kept : String) (xs : List ErrorHandler) → All P xs → All P (dedup_after kept xs)
  unfolding dedup_after
  dedup_after-All kept [] h = tt
  dedup_after-All kept (x ∷ xs) h = elim (Bool-cases (x.handler_id == kept)) [
    | inl e ↦ rw e (dedup_after-All kept xs h.1)
    | inr e ↦ rw e (h.0, dedup_after-All x.handler_id xs h.1)
  ]

  dedup-All : (xs : List ErrorHandler) → All P xs → All P (dedup xs)
  unfolding dedup
  dedup-All [] h = tt
  dedup-All (x ∷ xs) h = (h.0, dedup_after-All x.handler_id xs h.1)

module _ (le : ErrorHandler → ErrorHandler → Bool) where
  dedup_after-IsSorted :
      (kept : String) (xs : List ErrorHandler) → IsSorted le xs → IsSorted le (dedup_after kept xs)
  unfolding dedup_after
  dedup_after-IsSorted kept [] s = tt
  dedup_after-IsSorted kept (x ∷ xs) s = elim (Bool-cases (x.handler_id == kept)) [
    | inl e ↦ rw e (dedup_after-IsSorted kept xs s.1)
    | inr e ↦ rw e (
      dedup_after-All (λ y. le x y ≡ true) x.handler_id xs s.0,
      dedup_after-IsSorted x.handler_id xs s.1,
    )
  ]

  dedup-IsSorted : (xs : List ErrorHandler) → IsSorted le xs → IsSorted le (dedup xs)
  unfolding dedup
  dedup-IsSorted [] s = tt
  dedup-IsSorted (x ∷ xs) s = (
    dedup_after-All (λ y. le x y ≡ true) x.handler_id xs s.0,
    dedup_after-IsSorted x.handler_id xs s.1,
  )

abbrev pub has_id : String → List ErrorHandler → Bool
has_id id = any (λ handler. handler.handler_id == id)

any-append :
    (p : ErrorHandler → Bool) (xs ys : List ErrorHandler)
    → any p (xs ++ ys) ≡ (any p xs || any p ys)
unfolding any
any-append p [] ys = refl
any-append p (x ∷ xs) ys = ground (arith, any-append p xs ys)

any-insert_sorted :
    (le : ErrorHandler → ErrorHandler → Bool) (p : ErrorHandler → Bool) (x : ErrorHandler)
    (ys : List ErrorHandler)
    → any p (insert_sorted le x ys) ≡ (p x || any p ys)
unfolding insert_sorted any
any-insert_sorted le p x [] = refl
any-insert_sorted le p x (y ∷ ys) = ground (arith, any-insert_sorted le p x ys)

any-sort_by :
    (le : ErrorHandler → ErrorHandler → Bool) (p : ErrorHandler → Bool) (xs : List ErrorHandler)
    → any p (sort_by le xs) ≡ any p xs
unfolding sort_by any
any-sort_by le p [] = refl
any-sort_by le p (x ∷ xs) =
    any-insert_sorted le p x (sort_by le xs) ∙ ap (λ b. p x || b) (any-sort_by le p xs)

has_id-dedup_after :
    (id kept : String) (xs : List ErrorHandler)
    → ((kept == id) || has_id id (dedup_after kept xs)) ≡ ((kept == id) || has_id id xs)
unfolding dedup_after any
has_id-dedup_after id kept [] = refl
has_id-dedup_after id kept (x ∷ xs) = ground (
  arith,
  has_id-dedup_after id kept xs,
  has_id-dedup_after id x.handler_id xs,
  ==_iff x.handler_id kept,
  ==_iff x.handler_id id,
  ==_iff kept id,
)

has_id-dedup : (id : String) (xs : List ErrorHandler) → has_id id (dedup xs) ≡ has_id id xs
unfolding dedup any
has_id-dedup id [] = refl
has_id-dedup id (x ∷ xs) = has_id-dedup_after id x.handler_id xs

-- What is retained of a list.
module _ (p : ErrorHandler → Bool) where
  retain-All :
      (P : ErrorHandler → Type 0) (xs : List ErrorHandler)
      → All P xs
      → All (λ x. P x × (p x ≡ true)) (retain p xs)
  unfolding retain
  retain-All P [] h = tt
  retain-All P (x ∷ xs) h = elim (Bool-cases (p x)) [
    | inl e ↦ rw e ((h.0, e), retain-All P xs h.1)
    | inr e ↦ rw e (retain-All P xs h.1)
  ]

  retain-has_id :
      (xs : List ErrorHandler) → All (λ x. p x ≡ true → has_id x.handler_id (retain p xs) ≡ true) xs
  unfolding retain any
  retain-has_id [] = tt
  retain-has_id (x ∷ xs) = (
    λ e. rw e (ground (arith, ==_refl x.handler_id)),
    All-map _ _ (λ y h e. ground (arith, h e)) xs (retain-has_id xs),
  )

-- The handlers of an error, before they are sorted.
module _ (error : AsyncExecutionError) where
  abbrev pub fits : ErrorHandler → Bool
  fits handler = matches_error_pattern handler.error_pattern error

  own : HashMap String (List ErrorHandler) → List ErrorHandler
  own m = own_handlers error (get (error_type_name error) m)

  other : HashMap String (List ErrorHandler) → List ErrorHandler
  other m = other_handlers error m

  module _ (P : ErrorHandler → Type 0) where
    abbrev pub AllHandlers : HashMap String (List ErrorHandler) → Type 0
    AllHandlers = Entries (λ _ handler_list. All P handler_list)

    own-All :
        (m : HashMap String (List ErrorHandler))
        → AllHandlers m
        → All (λ h. P h × (fits h ≡ true)) (own m)
    unfolding own get own_handlers matching_of
    own-All [] h = tt
    own-All ((k, hs) ∷ m) h = elim (Bool-cases (k == error_type_name error)) [
      | inl e ↦ rw e (retain-All fits P hs h.0)
      | inr e ↦ rw e (own-All m h.1)
    ]

    other-All :
        (m : HashMap String (List ErrorHandler))
        → AllHandlers m
        → All (λ h. P h × (fits h ≡ true)) (other m)
    unfolding other other_handlers matching_of
    other-All [] h = tt
    other-All ((k, hs) ∷ m) h = elim (Bool-cases (k == error_type_name error)) [
      | inl e ↦ rw e (other-All m h.1)
      | inr e ↦
          rw e
            (All-append _ (retain fits hs) (other m) (retain-All fits P hs h.0) (other-All m h.1))
    ]

  -- Each handler that fits has its id among those that are found.
  abbrev pub AllFound : (found : String → Bool) → HashMap String (List ErrorHandler) → Type 0
  AllFound found = AllHandlers (λ h. fits h ≡ true → found h.handler_id ≡ true)

  AllFound-map :
      (f g : String → Bool)
      → ((id : String) → f id ≡ true → g id ≡ true)
      → (m : HashMap String (List ErrorHandler)) → AllFound f m
      → AllFound g m
  AllFound-map f g k [] h = tt
  AllFound-map f g k ((_, hs) ∷ m) h =
      (All-map _ _ (λ x fg e. k x.handler_id (fg e)) hs h.0, AllFound-map f g k m h.1)

  -- A key has one entry.
  own-absent :
      (k : String) (m : HashMap String (List ErrorHandler))
      → (k == error_type_name error) ≡ true
      → get k m ≡ none
      → own m ≡ []
  unfolding own own_handlers
  own-absent k m e absent =
      subst (λ name. own_handlers error (get name m) ≡ []) ((==_iff k (error_type_name error)).0 e)
        (rw absent refl)

  own-AllFound :
      (m : HashMap String (List ErrorHandler))
      → HasUniqueKeys m
      → AllFound (λ id. has_id id (own m) || has_id id (other m)) m
  unfolding own get own_handlers matching_of other other_handlers any
  own-AllFound [] u = tt
  own-AllFound ((k, hs) ∷ m) u = elim (Bool-cases (k == error_type_name error)) [
    | inl e ↦ (
      All-map _ _ (λ x shown fx. rw e (ground (arith, shown fx))) hs (retain-has_id fits hs),
      AllFound-map _ _
          (λ id found.
            let later =
              subst (λ l. (has_id id l || has_id id (other m)) ≡ true) (own-absent k m e u.0)
                found in
            rw e (ground (arith, later)))
          m (own-AllFound m u.1),
    )
    | inr e ↦ (
      All-map _ _
          (λ x shown fx. rw (e, any-append _ (retain fits hs) (other m)) (ground (arith, shown fx)))
          hs (retain-has_id fits hs),
      AllFound-map _ _
          (λ id found. rw (e, any-append _ (retain fits hs) (other m)) (ground (arith, found))) m
          (own-AllFound m u.1),
    )
  ]

-- The handlers that are found for an error are registered ones that match it: they have every property
-- that all registered handlers have. They stand in the order of their priorities, the highest first,
-- and every registered handler that matches the error has its identifier among them.
pub find_matching_handlers_lem :
    (P : ErrorHandler → Type 0) (error : AsyncExecutionError) (s : ErrorPropagationManager)
    → HasUniqueKeys s.error_handlers
    → AllHandlers error P s.error_handlers
    → All
        (λ h. P h × (matches_error_pattern h.error_pattern error ≡ true))
        (find_matching_handlers error s)
      × IsSorted (λ a b. leb b.priority a.priority) (find_matching_handlers error s)
      × AllFound error (λ id. has_id id (find_matching_handlers error s)) s.error_handlers
unfolding find_matching_handlers comes_first own other
find_matching_handlers_lem P error s unique all =
    let m = s.error_handlers in
    let found = own error m ++ other error m in
    (
      dedup-All _ _ (
          sort_by-All comes_first _ found (
            All-append _ (own error m) (other error m) (own-All error P m all)
              (other-All error P m all))),
      dedup-IsSorted comes_first _ (
          sort_by-IsSorted comes_first (λ x y h. ground (arith, h))
            (λ x y z h k. ground (arith, h, k)) found),
      AllFound-map error _ _
          (λ id h.
            rw
              (
                has_id-dedup id (sort_by comes_first found),
                any-sort_by comes_first _ found,
                any-append _ (own error m) (other error m),
              )
              h)
          m (own-AllFound error m unique),
    )
