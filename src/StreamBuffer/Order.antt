-- ===== src/StreamBuffer/Order.antt =====
-- Lists of events with rising ids, and what a consumer that walks along one has seen.
use mcp_persist.Prelude.{
  ℕ, ◌≤◌, ◌<◌, ◌≡◌, refl, subst, arith, Bool, true, false, List, [], ◌∷◌, ◌++◌, leb, ◌==◌,
  if◌then◌else◌, Every, Every-append, Every-mono, Bool-cases, inl, inr,
}
use mcp_persist.StreamBuffer.{Event, is_empty, has_id}

abbrev pub Rising : List Event → Type 0
Rising [] = Unit
Rising (e ∷ es) = Every (λ x. e.event_id < x.event_id) es × Rising es

-- An id is reached by an event.
abbrev pub reaches : ℕ → List Event → Bool
reaches n [] = false
reaches n (e ∷ es) = if leb n e.event_id then true else reaches n es

-- A message behind `a` and up to the cursor was delivered.
abbrev pub IsGot : ℕ → ℕ → List Event → Event → Type 0
IsGot a c ds e =
    a < e.event_id → e.event_id ≤ c → is_empty e.payload ≡ false → has_id e.event_id ds ≡ true

-- A list to deliver from leaves out no message between the cursor and any of its events.
abbrev pub IsCovered : ℕ → List Event → Event → Type 0
IsCovered c es e =
    c < e.event_id
    → is_empty e.payload ≡ false
    → reaches e.event_id es ≡ true
    → has_id e.event_id es ≡ true

-- No message stands behind the cursor.
abbrev pub IsBehind : ℕ → Event → Type 0
IsBehind c e = c < e.event_id → is_empty e.payload ≡ true

pub Every-both {ℓ κ ν ρ} :
    {A : Type ℓ} (P : A → Type κ) (Q : A → Type ν) (R : A → Type ρ) (xs : List A)
    → ((x : A) → P x → Q x → R x)
    → Every P xs
    → Every Q xs
    → Every R xs
Every-both P Q R [] f h k = tt
Every-both P Q R (x ∷ xs) f h k = (f x h.0 k.0, Every-both P Q R xs f h.1 k.1)

pub has_id-append : (n : ℕ) (ds es : List Event) → has_id n ds ≡ true → has_id n (ds ++ es) ≡ true
has_id-append n [] es h = ground arith
has_id-append n (d ∷ ds) es h = ground (arith, h, has_id-append n ds es)

pub has_id-last : (e : Event) (ds : List Event) → has_id e.event_id (ds ++ e ∷ []) ≡ true
has_id-last e [] = ground arith
has_id-last e (d ∷ ds) = ground (arith, has_id-last e ds)

has_id-above : (n : ℕ) (es : List Event) → Every (λ x. n < x.event_id) es → has_id n es ≡ false
has_id-above n [] h = refl
has_id-above n (e ∷ es) h = ground (arith, h.0, has_id-above n es h.1)

-- The first event of a list is delivered.
deliver-IsGot :
    (a c : ℕ) (ds es : List Event) (x e : Event)
    → Every (λ y. x.event_id < y.event_id) es
    → IsGot a c ds e
    → IsCovered c (x ∷ es) e
    → IsGot a x.event_id (ds ++ x ∷ []) e
deliver-IsGot a c ds es x e up got cov lo hi full = elim (Bool-cases (leb e.event_id c)) [
  | inl seen ↦ has_id-append e.event_id ds (x ∷ []) (got lo (ground (arith, seen)) full)
  | inr new ↦ elim (Bool-cases (x.event_id == e.event_id)) [
    | inl same ↦
        let eq : x.event_id ≡ e.event_id = ground (arith, same) in
        subst (λ n. has_id n (ds ++ x ∷ []) ≡ true) eq (has_id-last x ds)
    | inr other ↦
        let found : has_id e.event_id es ≡ true =
          ground (arith, other, cov (ground (arith, new)) full (ground (arith, hi))) in
        absurd (
          ground (
            arith,
            found,
            has_id-above e.event_id es (
                Every-mono (λ y. x.event_id < y.event_id) (λ y. e.event_id < y.event_id) es
                  (λ y l. omega (arith, l, hi)) up),
          ))
  ]
]

-- What is left covers what is behind the delivered one; and so it does if the first is not delivered.
pub next-IsCovered :
    (c c' : ℕ) (es : List Event) (x e : Event)
    → c ≤ c'
    → x.event_id ≤ c'
    → IsCovered c (x ∷ es) e
    → IsCovered c' es e
next-IsCovered c c' es x e le below cov lo full far =
    let found = cov (omega (arith, lo, le)) full (ground (arith, far)) in
    let other : (x.event_id == e.event_id) ≡ false = ground (arith, below, lo) in
    ground (arith, found, other)

pub deliver-all :
    (a c : ℕ) (ds es : List Event) (x : Event) (stored : List Event)
    → Every (λ y. x.event_id < y.event_id) es
    → Every (IsGot a c ds) stored
    → Every (IsCovered c (x ∷ es)) stored
    → Every (IsGot a x.event_id (ds ++ x ∷ [])) stored
deliver-all a c ds es x stored up =
    Every-both (IsGot a c ds) (IsCovered c (x ∷ es)) (IsGot a x.event_id (ds ++ x ∷ [])) stored
      (λ e. deliver-IsGot a c ds es x e up)

-- An event behind all of them.
pub Rising-append :
    (es : List Event) (e : Event)
    → Rising es
    → Every (λ x. x.event_id < e.event_id) es
    → Rising (es ++ e ∷ [])
Rising-append [] e r h = (tt, tt)
Rising-append (x ∷ es) e r h = (
  Every-append (λ y. x.event_id < y.event_id) es (e ∷ []) r.0 (h.0, tt),
  Rising-append es e r.1 h.1,
)
