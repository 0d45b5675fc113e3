-- ===== src/Scheduler/Tracker/Shares.antt =====
-- src/scheduler.rs: how one resource may be held, and what a permitted access does to that.
use tricti.Base.{
  String, ◌≡◌, refl, sym, ◌≢◌, false, Option, none, some, List, [], ◌∷◌, ◌++◌, arith, All, text_key,
  eq_iff,
}
use tricti.Base.HashMap
use tricti.Base.HashMap.{get-insert, get-remove, get-modify}
use tricti.Base.HashSet
use tricti.Base.HashSet.{contains-snoc, contains-remove}
use tricti.Scheduler.Tracker.{ResourceTracker, with_reader}
use tricti.Scheduler.Tracker.Rules.{IsOnly, IsFree, IsOnlyReader, IsUnread, IsDistinct, ListsOnce}

-- The writer of a resource is its only reader and the only possible owner.
abbrev pub IsWriterAlone : Option String → Option (List String) → Option String → Type 0
IsWriterAlone none readers owner = Unit {0}
IsWriterAlone (some w) readers owner = IsOnlyReader readers w × IsOnly owner w

abbrev pub IsOwnerAlone : Option String → Option (List String) → Type 0
IsOwnerAlone none readers = Unit {0}
IsOwnerAlone (some o) readers = IsOnlyReader readers o

pub record Shares (readers : Option (List String)) (writer owner : Option String) : Type 0 where
  pub once : ListsOnce readers
  pub inhabited : readers ≢ some []
  pub writer_alone : IsWriterAlone writer readers owner
  pub owner_alone : IsOwnerAlone owner readers

abbrev pub SharesAt : ResourceTracker → String → Type 0
SharesAt t r =
    Shares (HashMap.get r t.immutable_borrows) (HashMap.get r t.mutable_borrows)
      (HashMap.get r t.owned_resources)

abbrev pub IsExclusive : ResourceTracker → Type 0
IsExclusive t = (r : String) → SharesAt t r

All-snoc :
    (bs : List String) (b s : String)
    → All (λ x. x ≡ b) bs
    → s ≡ b
    → All (λ x. x ≡ b) (bs ++ s ∷ [])
All-snoc [] b s h e = (e, tt)
All-snoc (x ∷ bs) b s h e = (h.0, All-snoc bs b s h.1 e)

IsDistinct-snoc :
    (bs : List String) (s : String)
    → IsDistinct bs
    → HashSet.contains bs s ≡ false
    → IsDistinct (bs ++ s ∷ [])
unfolding HashSet.contains
IsDistinct-snoc [] s d n = (refl, tt)
IsDistinct-snoc (x ∷ bs) s d n = (
  ground (arith, contains-snoc bs s x, eq_iff x s, eq_iff s x),
  IsDistinct-snoc bs s d.1 (ground arith),
)

-- A set gains a reader.
with_reader-IsOnlyReader :
    (o : Option (List String)) (b s : String)
    → IsOnlyReader o b
    → s ≡ b
    → IsOnlyReader (some (with_reader o s)) b
unfolding with_reader
with_reader-IsOnlyReader none b s h e = (e, tt)
with_reader-IsOnlyReader (some bs) b s h e = ground (arith, All-snoc bs b s h e)

with_reader-ListsOnce :
    (o : Option (List String)) (s : String) → ListsOnce o → IsDistinct (with_reader o s)
unfolding with_reader HashSet.contains
with_reader-ListsOnce none s h = (refl, tt)
with_reader-ListsOnce (some bs) s h = ground (arith, IsDistinct-snoc bs s h)

snoc-ne-nil : (bs : List String) (s : String) → (bs ++ s ∷ []) ≢ []
snoc-ne-nil [] s e = cc
snoc-ne-nil (x ∷ bs) s e = cc

with_reader-ne-nil : (o : Option (List String)) (s : String) → o ≢ some [] → with_reader o s ≢ []
unfolding with_reader
with_reader-ne-nil none s h e = cc
with_reader-ne-nil (some bs) s h e = ground (arith, snoc-ne-nil bs s)

pub add_reader :
    (im : Option (List String)) (mu ow : Option String) (s : String)
    → IsOnly mu s
    → IsOnly ow s
    → Shares im mu ow
    → Shares (some (with_reader im s)) mu ow
add_reader im mu ow s m o h = record {
  once = with_reader-ListsOnce im s h.once;
  inhabited = λ e. with_reader-ne-nil im s h.inhabited (cc);
  writer_alone = writer mu m h.writer_alone;
  owner_alone = owner ow o h.owner_alone;
}
  where
    writer :
        (mu : Option String)
        → IsOnly mu s
        → IsWriterAlone mu im ow
        → IsWriterAlone mu (some (with_reader im s)) ow
    writer none m a = tt
    writer (some w) m a = (with_reader-IsOnlyReader im w s a.0 (sym m), a.1)

    owner :
        (ow : Option String)
        → IsOnly ow s
        → IsOwnerAlone ow im
        → IsOwnerAlone ow (some (with_reader im s))
    owner none m a = tt
    owner (some w) m a = with_reader-IsOnlyReader im w s a (sym m)

pub add_writer :
    (im : Option (List String)) (mu ow : Option String) (s : String)
    → IsOnlyReader im s
    → IsOnly ow s
    → Shares im mu ow
    → Shares im (some s) ow
add_writer im mu ow s r o h = record {
  once = h.once;
  inhabited = h.inhabited;
  writer_alone = (r, o);
  owner_alone = h.owner_alone;
}

unread_readers : (im : Option (List String)) (s : String) → IsUnread im → IsOnlyReader im s
unread_readers none s u = tt
unread_readers (some []) s u = tt
unread_readers (some (x ∷ xs)) s u = absurd u

pub add_owner :
    (im : Option (List String)) (mu ow : Option String) (s : String)
    → IsUnread im
    → IsFree mu
    → Shares im mu ow
    → Shares im mu (some s)
add_owner im none ow s u f h = record {
  once = h.once;
  inhabited = h.inhabited;
  writer_alone = tt;
  owner_alone = unread_readers im s u;
}
add_owner im (some w) ow s u f h = absurd f
