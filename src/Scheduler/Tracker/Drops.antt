-- ===== src/Scheduler/Tracker/Drops.antt =====
-- src/scheduler.rs: what a release leaves of one resource.
use tricti.Base.{
  String, ◌≡◌, ◌≢◌, Bool, not, Option, none, some, List, [], ◌∷◌, arith, if◌then◌else◌, ◌==◌, All,
  retain, text_key, eq_iff,
}
use tricti.Base.HashMap
use tricti.Base.HashMap.{get-insert, get-remove, get-modify}
use tricti.Base.HashSet
use tricti.Base.HashSet.{contains-snoc, contains-remove}
use tricti.Scheduler.Tracker.{without_reader, without_holder, is_empty}
use tricti.Scheduler.Tracker.Rules.{IsOnlyReader, IsDistinct, ListsOnce}
use tricti.Scheduler.Tracker.Shares.{IsWriterAlone, IsOwnerAlone, Shares}

-- What a release leaves of a resource's readers, and of its writer or owner.
abbrev pub drop_reader : Option (List String) → String → Option (List String)
drop_reader none s = none
drop_reader (some bs) s =
    let left = HashSet.remove s bs in if is_empty left then none else some left

abbrev pub drop_holder : Option String → String → Option String
drop_holder none s = none
drop_holder (some h) s = if h == s then none else some h

pub get-without_reader :
    (r j s : String) (m : HashMap.HashMap String (List String))
    → HashMap.get j (without_reader (HashMap.get r m) r s m)
      ≡ (if r == j then drop_reader (HashMap.get j m) s else HashMap.get j m)
unfolding without_reader
get-without_reader r j s m =
    ground (arith, eq_iff r j, get-remove r j m, get-modify r j (λ _. kept) m)
  where
    kept : List String
    kept = elim (HashMap.get r m) [ none ↦ [] | some bs ↦ HashSet.remove s bs ]

pub get-without_holder :
    (r j s : String) (m : HashMap.HashMap String String)
    → HashMap.get j (without_holder (HashMap.get r m) r s m)
      ≡ (if r == j then drop_holder (HashMap.get j m) s else HashMap.get j m)
unfolding without_holder
get-without_holder r j s m = ground (arith, get-remove r j m, eq_iff r j)

pub All-retain :
    (p : String → Bool) (b : String) (bs : List String)
    → All (λ x. x ≡ b) bs
    → All (λ x. x ≡ b) (retain p bs)
unfolding retain
All-retain p b [] h = tt
All-retain p b (x ∷ bs) h = ground (arith, All-retain p b bs h.1)

IsDistinct-remove :
    (s : String) (bs : List String) → IsDistinct bs → IsDistinct (HashSet.remove s bs)
unfolding HashSet.remove retain
IsDistinct-remove s [] d = tt
IsDistinct-remove s (x ∷ bs) d = ground (arith, IsDistinct-remove s bs d.1, contains-remove bs s x)

drop_reader-IsOnlyReader :
    (o : Option (List String)) (s b : String) → IsOnlyReader o b → IsOnlyReader (drop_reader o s) b
unfolding HashSet.remove
drop_reader-IsOnlyReader none s b h = tt
drop_reader-IsOnlyReader (some bs) s b h = ground (arith, All-retain (λ x. not (x == s)) b bs h)

kept-ne-nil : (left : List String) → (if is_empty left then none else some left) ≢ some []
unfolding is_empty
kept-ne-nil [] e = cc
kept-ne-nil (x ∷ left) e = cc

pub drop_reader-Shares :
    (im : Option (List String)) (mu ow : Option String) (s : String)
    → Shares im mu ow
    → Shares (drop_reader im s) mu ow
drop_reader-Shares im mu ow s h = record {
  once = once im h.once;
  inhabited = inhabited im;
  writer_alone = writer mu h.writer_alone;
  owner_alone = owner ow h.owner_alone;
}
  where
    once : (o : Option (List String)) → ListsOnce o → ListsOnce (drop_reader o s)
    once none d = tt
    once (some bs) d = ground (arith, IsDistinct-remove s bs d)

    inhabited : (o : Option (List String)) → drop_reader o s ≢ some []
    inhabited none e = cc
    inhabited (some bs) e = kept-ne-nil (HashSet.remove s bs) e

    writer : (mu : Option String) → IsWriterAlone mu im ow → IsWriterAlone mu (drop_reader im s) ow
    writer none a = tt
    writer (some w) a = (drop_reader-IsOnlyReader im s w a.0, a.1)

    owner : (ow : Option String) → IsOwnerAlone ow im → IsOwnerAlone ow (drop_reader im s)
    owner none a = tt
    owner (some w) a = drop_reader-IsOnlyReader im s w a

pub drop_writer-Shares :
    (im : Option (List String)) (mu ow : Option String) (s : String)
    → Shares im mu ow
    → Shares im (drop_holder mu s) ow
drop_writer-Shares im none ow s h = h
drop_writer-Shares im (some w) ow s h = ground arith

pub drop_owner-Shares :
    (im : Option (List String)) (mu ow : Option String) (s : String)
    → Shares im mu ow
    → Shares im mu (drop_holder ow s)
drop_owner-Shares im none none s h = h
drop_owner-Shares im none (some o) s h = ground arith
drop_owner-Shares im (some w) none s h = h
drop_owner-Shares im (some w) (some o) s h = ground arith
