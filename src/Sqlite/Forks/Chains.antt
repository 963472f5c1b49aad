-- ===== src/Sqlite/Forks/Chains.antt =====
-- The walk up a fork chain ends, and what its segments are.
use mcp_persist.Prelude.{
  ℕ, zero, suc, ◌+◌, ◌≤◌, ◌<◌, ◌≡◌, refl, ap, sym, ◌⊎◌, ◌∙◌, true, false, not, List, [], ◌∷◌, ◌++◌,
  Option, none, some, arith, Text, text_eq, text_eq_iff, any, filter, length, Every, Every-append,
  subst, inl, inr, Bool-cases, Option-cases,
}
use mathlib.Core.List.{reverse, reverse-cons}
use native.Mathlib.Numerals.{towards_suc}
use mcp_persist.Sqlite.State.{Fork}
use mcp_persist.Sqlite.Forks.{Segment, find_fork, walk, or_empty, get_stream_segments}

-- The forks whose child is still to be visited.
open_forks : List Text → List Fork → List Fork
open_forks visited = filter (λ f. not (any (text_eq f.child) visited))

open_forks-le :
    (c : Text) (visited : List Text) (forks : List Fork)
    → length (open_forks (c ∷ visited) forks) ≤ length (open_forks visited forks)
unfolding open_forks
open_forks-le c visited [] = omega arith
open_forks-le c visited (f ∷ forks) = ground (arith, open_forks-le c visited forks)

-- A step up a fork visits one more of them.
open_forks-lt :
    (c : Text) (visited : List Text) (forks : List Fork) (f : Fork)
    → find_fork forks c ≡ some f
    → any (text_eq c) visited ≡ false
    → length (open_forks (c ∷ visited) forks) < length (open_forks visited forks)
unfolding open_forks
open_forks-lt c visited [] f e h = cc
open_forks-lt c visited (g ∷ forks) f e h = elim (Bool-cases (text_eq g.child c)) [
  | inl same ↦
      let eq : g.child ≡ c = (text_eq_iff g.child c).0 same in
      let new : any (text_eq g.child) visited ≡ false = rw eq h in
      ground (arith, open_forks-le c visited forks, new)
  | inr other ↦ ground (arith, open_forks-lt c visited forks f, other)
]

-- The three outcomes of one turn.
walk_cycle :
    (fuel : ℕ) (forks : List Fork) (visited : List Text) (current : Text) (max_id : Option ℕ)
    → any (text_eq current) visited ≡ true
    → walk (suc fuel) forks visited current max_id
      ≡ some (record { stream = current; min_id = none; max_id = max_id } ∷ [])
unfolding walk
walk_cycle fuel forks visited current max_id h = rw h

walk_root :
    (fuel : ℕ) (forks : List Fork) (visited : List Text) (current : Text) (max_id : Option ℕ)
    → any (text_eq current) visited ≡ false
    → find_fork forks current ≡ none
    → walk (suc fuel) forks visited current max_id
      ≡ some (record { stream = current; min_id = none; max_id = max_id } ∷ [])
unfolding walk
walk_root fuel forks visited current max_id h e = rw (h, e)

walk_fork :
    (fuel : ℕ) (forks : List Fork) (visited : List Text) (current : Text) (max_id : Option ℕ)
    (f : Fork) (rest : List Segment)
    → any (text_eq current) visited ≡ false
    → find_fork forks current ≡ some f
    → walk fuel forks (current ∷ visited) f.parent (some f.event_id) ≡ some rest
    → walk (suc fuel) forks visited current max_id
      ≡ some (record { stream = current; min_id = some f.event_id; max_id = max_id } ∷ rest)
unfolding walk
walk_fork fuel forks visited current max_id f rest h e r = rw (h, e, r)

-- Fork points at `hi` or below bound every segment from the second on.
abbrev pub BoundedBy : ℕ → Segment → Type 0
BoundedBy hi seg = (m : ℕ) × (seg.max_id ≡ some m) × (m ≤ hi)

-- The lower bound of a segment, a fork point too.
abbrev pub MinBelow : ℕ → Option ℕ → Type 0
MinBelow hi none = Unit
MinBelow hi (some m) = m ≤ hi

abbrev pub ForksBelow : ℕ → List Fork → Type 0
ForksBelow hi = Every (λ f. f.event_id ≤ hi)

find_fork-le :
    (hi : ℕ) (forks : List Fork) (c : Text) (f : Fork)
    → ForksBelow hi forks
    → find_fork forks c ≡ some f
    → f.event_id ≤ hi
find_fork-le hi [] c f b e = cc
find_fork-le hi (g ∷ forks) c f b e = elim (Bool-cases (text_eq g.child c)) [
  | inl same ↦ ground (arith, same, b.0)
  | inr other ↦ find_fork-le hi forks c f b.1 (rw other at e)
]

-- The forks between the segments, from the stream up to its last ancestor: a segment ends at the
-- fork point of the one before it and begins at its own, and the last one, a root or a stream that the
-- walk has visited already, has no beginning.
abbrev pub AreForked : List Fork → List Text → Segment → List Segment → Type 0
AreForked forks visited seg [] =
    (seg.min_id ≡ none)
    × ((find_fork forks seg.stream ≡ none) ⊎ (any (text_eq seg.stream) visited ≡ true))
AreForked forks visited seg (next ∷ rest) =
    ((f : Fork) × (find_fork forks seg.stream ≡ some f)
      × (seg.min_id ≡ some f.event_id)
      × (next.stream ≡ f.parent)
      × (next.max_id ≡ some f.event_id))
    × (any (text_eq seg.stream) visited ≡ false)
    × AreForked forks (seg.stream ∷ visited) next rest

-- A walk with more fuel than forks to visit returns a first segment for the stream itself, open as
-- far as the caller said, and bounded segments behind it.
record IsWalk (hi : ℕ) (forks : List Fork) (visited : List Text) (stream : Text) (max_id : Option ℕ)
    (o : Option (List Segment)) : Type 0 where
  first : Segment
  rest : List Segment
  result : o ≡ some (first ∷ rest)
  stream_eq : first.stream ≡ stream
  max_eq : first.max_id ≡ max_id
  min_below : MinBelow hi first.min_id
  bounded : Every (BoundedBy hi) rest
  forked : AreForked forks visited first rest

walk-IsWalk :
    (hi fuel : ℕ) (forks : List Fork) (visited : List Text) (current : Text) (max_id : Option ℕ)
    → ForksBelow hi forks
    → length (open_forks visited forks) < fuel
    → IsWalk hi forks visited current max_id (walk fuel forks visited current max_id)
walk-IsWalk hi zero forks visited current max_id b lt = elim lt [ ]
walk-IsWalk hi (suc fuel) forks visited current max_id b lt =
    elim (Bool-cases (any (text_eq current) visited)) [
      | inl seen ↦ record {
        first = record { stream = current; min_id = none; max_id = max_id };
        rest = [];
        result = walk_cycle fuel forks visited current max_id seen;
        stream_eq = refl;
        max_eq = refl;
        min_below = tt;
        bounded = tt;
        forked = (refl, inr seen);
      }
      | inr new ↦ elim (Option-cases (find_fork forks current)) [
        | inl root ↦ record {
          first = record { stream = current; min_id = none; max_id = max_id };
          rest = [];
          result = walk_root fuel forks visited current max_id new root;
          stream_eq = refl;
          max_eq = refl;
          min_below = tt;
          bounded = tt;
          forked = (refl, inl root);
        }
        | inr (f, e) ↦
            let up =
              walk-IsWalk hi fuel forks (current ∷ visited) f.parent (some f.event_id) b
                (omega (arith, open_forks-lt current visited forks f e new)) in
            record {
              first = record { stream = current; min_id = some f.event_id; max_id = max_id };
              rest = up.first ∷ up.rest;
              result = walk_fork fuel forks visited current max_id f _ new e up.result;
              stream_eq = refl;
              max_eq = refl;
              min_below = find_fork-le hi forks current f b e;
              bounded = ((f.event_id, up.max_eq, find_fork-le hi forks current f b e), up.bounded);
              forked = ((f, e, refl, up.stream_eq, up.max_eq), new, up.forked);
            }
      ]
    ]

open_forks_nil : (forks : List Fork) → open_forks [] forks ≡ forks
unfolding open_forks
open_forks_nil [] = refl
open_forks_nil (f ∷ forks) = ap (◌∷◌ f) (open_forks_nil forks)

-- The segments of a stream, cycles included: its own rows without an upper bound come last, and those
-- of its ancestors, each the parent of the next one up to their fork point, before them.
pub record IsSegmented (hi : ℕ) (forks : List Fork) (stream : Text) (segs : List Segment)
    : Type 0 where
  pub own : Segment
  pub ancestors : List Segment
  pub segments : segs ≡ reverse ancestors ++ own ∷ []
  pub own_stream : own.stream ≡ stream
  pub own_max : own.max_id ≡ none
  pub own_min : MinBelow hi own.min_id
  pub bounded : Every (BoundedBy hi) (reverse ancestors)
  pub forked : AreForked forks [] own ancestors

Every-reverse {ℓ κ} :
    {A : Type ℓ} (P : A → Type κ) (xs : List A) → Every P xs → Every P (reverse xs)
Every-reverse P [] h = tt
Every-reverse P (x ∷ xs) h =
    subst (Every P) (sym (reverse-cons x xs))
      (Every-append P (reverse xs) (x ∷ []) (Every-reverse P xs h.1) (h.0, tt))

-- The walk over the forks ends by itself, cycles included, and its fuel is enough: the list of segments
-- is the stream's own, without an upper bound and last, behind those of its ancestors. Each of these
-- has the stream that the fork of the next segment's stream names as its parent, ends at the event of
-- that fork, where the next segment begins, and the first one, which has no beginning, is no fork or
-- closes a cycle. Fork points at `hi` or below bound all of these.
pub get_stream_segments-IsSegmented :
    (hi : ℕ) (forks : List Fork) (stream : Text)
    → ForksBelow hi forks
    → IsSegmented hi forks stream (get_stream_segments forks stream)
get_stream_segments-IsSegmented hi forks stream b =
    let w =
      walk-IsWalk hi (length forks + 1) forks [] stream none b
        (rw (open_forks_nil forks) (omega arith)) in
    record {
      own = w.first;
      ancestors = w.rest;
      segments =
          unfold get_stream_segments in
          ap (λ o. reverse (or_empty o)) w.result ∙ reverse-cons w.first w.rest;
      own_stream = w.stream_eq;
      own_max = w.max_eq;
      own_min = w.min_below;
      bounded = Every-reverse (BoundedBy hi) w.rest w.bounded;
      forked = w.forked;
    }

-- A stream that is no fork is one segment, without bounds.
pub get_stream_segments_unforked :
    (forks : List Fork) (stream : Text)
    → find_fork forks stream ≡ none
    → get_stream_segments forks stream
      ≡ record { stream = stream; min_id = none; max_id = none } ∷ []
get_stream_segments_unforked forks stream e =
    unfold get_stream_segments in
    simp towards_suc (rw (walk_root (length forks) forks [] stream none refl e))
