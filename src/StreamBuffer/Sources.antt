-- ===== src/StreamBuffer/Sources.antt =====
-- The window and a replay, as lists to deliver from.
use mcp_persist.Prelude.{
  ℕ, ◌≤◌, ◌<◌, ◌≡◌, refl, sym, subst, arith, true, false, not, ◌&&◌, List, [], ◌∷◌, ◌++◌, Option,
  none, some, Text, ltb, if◌then◌else◌, Every, Every-append, Every-mono, Bool-cases, inl, inr,
}
use mcp_persist.StreamBuffer.{has_id, Event, cold_needed, is_empty, replay_after}
use mcp_persist.StreamBuffer.Order.{Rising, reaches, IsCovered, IsBehind}
use mcp_persist.StreamBuffer.Progress.{pending_list}

pub Every-right {ℓ κ} :
    {A : Type ℓ} (P : A → Type κ) (xs ys : List A) → Every P (xs ++ ys) → Every P ys
Every-right P [] ys h = h
Every-right P (x ∷ xs) ys h = Every-right P xs ys h.1

pub Every-left {ℓ κ} :
    {A : Type ℓ} (P : A → Type κ) (xs ys : List A) → Every P (xs ++ ys) → Every P xs
Every-left P [] ys h = tt
Every-left P (x ∷ xs) ys h = (h.0, Every-left P xs ys h.1)

pub Rising-right : (xs ys : List Event) → Rising (xs ++ ys) → Rising ys
Rising-right [] ys h = h
Rising-right (x ∷ xs) ys h = Rising-right xs ys h.1

pub Rising-left : (xs ys : List Event) → Rising (xs ++ ys) → Rising xs
Rising-left [] ys h = tt
Rising-left (x ∷ xs) ys h =
    (Every-left (λ y. x.event_id < y.event_id) xs ys h.0, Rising-left xs ys h.1)

below_first :
    (xs : List Event) (y : Event) (ys : List Event)
    → Rising (xs ++ y ∷ ys)
    → Every (λ x. x.event_id < y.event_id) xs
below_first [] y ys h = tt
below_first (x ∷ xs) y ys h =
    ((Every-right (λ z. x.event_id < z.event_id) xs (y ∷ ys) h.0).0, below_first xs y ys h.1)

has_id_self : (es : List Event) → Every (λ e. has_id e.event_id es ≡ true) es
has_id_self [] = tt
has_id_self (x ∷ es) = (
  ground arith,
  Every-mono (λ e. has_id e.event_id es ≡ true) (λ e. has_id e.event_id (x ∷ es) ≡ true) es
      (λ e h. ground (arith, h)) (has_id_self es),
)

pub reaches-below :
    (n : ℕ) (es : List Event) → Every (λ x. x.event_id < n) es → reaches n es ≡ false
reaches-below n [] h = refl
reaches-below n (e ∷ es) h = ground (arith, h.0, reaches-below n es h.1)

pending-IsCovered :
    (c : ℕ) (window : List Event) (p : Option Event)
    → Rising (window ++ pending_list p)
    → Every (IsCovered c window) (pending_list p)
pending-IsCovered c window none h = tt
pending-IsCovered c window (some e) h = (
  (λ lo full far. ground (arith, far, reaches-below e.event_id window (below_first window e [] h))),
  tt,
)

-- The window, unless the cursor is before it, covers what is behind the cursor.
pub window-IsCovered :
    (c : ℕ) (gone window : List Event) (p : Option Event)
    → Rising (gone ++ (window ++ pending_list p))
    → cold_needed (some c) window ≡ false
    → Every (IsCovered c window) (gone ++ (window ++ pending_list p))
window-IsCovered c gone [] p h warm = ground (arith, warm)
window-IsCovered c gone (w ∷ ws) p h warm =
    let window = w ∷ ws in
    let le : w.event_id ≤ c = ground (arith, warm) in
    Every-append (IsCovered c window) gone (window ++ pending_list p)
      (Every-mono (λ x. x.event_id < w.event_id) (IsCovered c window) gone
        (λ x l lo full far. absurd (omega (arith, l, lo, le)))
        (below_first gone w (ws ++ pending_list p) h))
      (Every-append (IsCovered c window) window (pending_list p)
        (Every-mono (λ e. has_id e.event_id window ≡ true) (IsCovered c window) window
          (λ e k lo full far. k) (has_id_self window))
        (pending-IsCovered c window p (Rising-right gone (window ++ pending_list p) h)))

pub window-IsBehind :
    (c : ℕ) (gone window : List Event) (p : Option Event)
    → Rising (gone ++ (window ++ pending_list p))
    → cold_needed (some c) window ≡ false
    → p ≡ none
    → Every (λ x. x.event_id ≤ c) window
    → Every (IsBehind c) (gone ++ (window ++ pending_list p))
window-IsBehind c gone [] p h warm e none_after = ground (arith, warm)
window-IsBehind c gone (w ∷ ws) p h warm e none_after =
    let le : w.event_id ≤ c = ground (arith, warm) in
    Every-append (IsBehind c) gone (w ∷ ws ++ pending_list p)
      (Every-mono (λ x. x.event_id < w.event_id) (IsBehind c) gone
        (λ x l lo. absurd (omega (arith, l, lo, le))) (below_first gone w (ws ++ pending_list p) h))
      (Every-append (IsBehind c) (w ∷ ws) (pending_list p)
        (Every-mono (λ x. x.event_id ≤ c) (IsBehind c) (w ∷ ws)
          (λ x l lo. absurd (omega (arith, l, lo))) none_after)
        (subst (λ q. Every (IsBehind c) (pending_list q)) (sym e) tt))

-- A message behind the cursor is in the list.
abbrev pub IsFound : ℕ → List Event → Event → Type 0
IsFound c es e = c < e.event_id → is_empty e.payload ≡ false → has_id e.event_id es ≡ true

module _ (rewrite : Text → Text) where
  pub replay_after-Every {ℓ} :
      (P : Event → Type ℓ) (c : ℕ) (es : List Event)
      → ((x : Event) → P x → P (record x { payload = rewrite x.payload }))
      → Every P es
      → Every P (replay_after rewrite c es)
  replay_after-Every P c [] f h = tt
  replay_after-Every P c (e ∷ es) f h =
      elim (Bool-cases (ltb c e.event_id && not (is_empty e.payload))) [
        | inl kept ↦ rw kept (f e h.0, replay_after-Every P c es f h.1)
        | inr left_out ↦ rw left_out (replay_after-Every P c es f h.1)
      ]

  pub replay_after-Rising :
      (c : ℕ) (es : List Event) → Rising es → Rising (replay_after rewrite c es)
  replay_after-Rising c [] h = tt
  replay_after-Rising c (e ∷ es) h =
      elim (Bool-cases (ltb c e.event_id && not (is_empty e.payload))) [
        | inl kept ↦ rw kept (
          replay_after-Every (λ y. e.event_id < y.event_id) c es (λ x l. l) h.0,
          replay_after-Rising c es h.1,
        )
        | inr left_out ↦ rw left_out (replay_after-Rising c es h.1)
      ]

  pub replay_after-above :
      (c : ℕ) (es : List Event) → Every (λ x. c < x.event_id) (replay_after rewrite c es)
  replay_after-above c [] = tt
  replay_after-above c (e ∷ es) = elim (Bool-cases (ltb c e.event_id && not (is_empty e.payload))) [
    | inl kept ↦ rw kept (ground (arith, kept), replay_after-above c es)
    | inr left_out ↦ rw left_out (replay_after-above c es)
  ]

  -- Every message behind the cursor is replayed.
  pub replay_after_complete :
      (c : ℕ) (es : List Event) → Every (IsFound c (replay_after rewrite c es)) es
  replay_after_complete c [] = tt
  replay_after_complete c (x ∷ es) =
      let rest = replay_after rewrite c es in
      let y = record x { payload = rewrite x.payload } in
      elim (Bool-cases (ltb c x.event_id && not (is_empty x.payload))) [
        | inl kept ↦
            subst (λ b. Every (IsFound c (if b then y ∷ rest else rest)) (x ∷ es)) (sym kept)
              (
                (λ lo full. ground arith),
                Every-mono (IsFound c rest) (IsFound c (y ∷ rest)) es
                    (λ e k lo full. ground (arith, k lo full)) (replay_after_complete c es),
              )
        | inr left_out ↦
            subst (λ b. Every (IsFound c (if b then y ∷ rest else rest)) (x ∷ es)) (sym left_out)
              ((λ lo full. absurd (ground (arith, left_out, lo, full))), replay_after_complete c es)
      ]
