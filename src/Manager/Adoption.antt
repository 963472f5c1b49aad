-- ===== src/Manager/Adoption.antt =====
-- Who can adopt a session, and how many a process holds.
use mcp_persist.Prelude.{
  ℕ, ◌+◌, ◌≤◌, ◌≡◌, ◌⊎◌, refl, arith, true, false, List, [], ◌∷◌, Option, none, some, Text, leb,
  length, Bool-cases, Option-cases, inl, inr,
}
use mcp_persist.Sessions.{JsonText, SessionRecord, owner_matches}
use mcp_persist.Manager.{
  Transport, Manager, value_at, set_at, at_session_limit, start_adopted, not_adopted, admitted,
  is_adopted, try_adopt,
}

-- At most as many sessions as the limit admits.
abbrev pub IsWithin : {Object : Type 0} → Manager Object → Type 0
IsWithin m = elim m.max_sessions [ none ↦ Unit {0} | some n ↦ length m.server_instances ≤ n ]

length-set_at-le :
    {A : Type 0} (id : Text) (a : A) (xs : List (Text × A))
    → length (set_at id a xs) ≤ length xs + 1
length-set_at-le id a [] = omega arith
length-set_at-le id a ((x, b) ∷ xs) = ground (arith, length-set_at-le id a xs)

module _ {Object : Type 0} (j : JsonText Object) (id : Text) (requestor : Option Object)
    (now : ℕ) where
  pub admitted-is_adopted :
      (t : Option Transport) (m : Manager Object)
      → is_adopted (admitted j id requestor now t m).answer ≡ true
  admitted-is_adopted (some t) m = refl
  admitted-is_adopted none m = elim (Bool-cases (at_session_limit m)) [
    | inl full ↦ rw full
    | inr room ↦ rw room
  ]

  -- The registry did not answer or has no record of the session, or the session is ended or is not the
  -- requestor's.
  abbrev pub IsUnadoptable : Option (Option (SessionRecord Object)) → Type 0
  IsUnadoptable none = Unit {0}
  IsUnadoptable (some none) = Unit {0}
  IsUnadoptable (some (some r)) =
      (r.terminated ≡ true) ⊎ (owner_matches j r.owner requestor ≡ false)

  -- A request for a session is handled here, by adopting it or by refusing it for want of room, exactly
  -- when the registry knows the session, it is not ended, and the requestor is its owner. Where the
  -- registry does not answer or knows no such session, or the session is ended or another's, the
  -- request is not adopted, leaves the manager as it was and tells the registry nothing.
  pub try_adopt-owner :
      (found : Option (Option (SessionRecord Object))) (m : Manager Object)
      → IsUnadoptable found
          × ((try_adopt j id requestor now found m).answer ≡ not_adopted)
          × ((try_adopt j id requestor now found m).manager ≡ m)
          × ((try_adopt j id requestor now found m).calls ≡ [])
        ⊎ (r : SessionRecord Object) × (found ≡ some (some r))
          × (r.terminated ≡ false)
          × (owner_matches j r.owner requestor ≡ true)
          × (is_adopted (try_adopt j id requestor now found m).answer ≡ true)
  unfolding try_adopt
  try_adopt-owner none m = inl (tt, refl, refl, refl)
  try_adopt-owner (some none) m = inl (tt, refl, refl, refl)
  try_adopt-owner (some (some r)) m = elim (Bool-cases r.terminated) [
    | inl ended ↦ inl (inl ended, rw ended refl, rw ended refl, rw ended refl)
    | inr live ↦ elim (Bool-cases (owner_matches j r.owner requestor)) [
      | inl own ↦ inr (
        r,
        refl,
        live,
        own,
        rw (live, own) (admitted-is_adopted (value_at id m.server_instances) m),
      )
      | inr other ↦
          inl (inr other, rw (live, other) refl, rw (live, other) refl, rw (live, other) refl)
    ]
  ]

  start_adopted-IsWithin :
      (m : Manager Object) → at_session_limit m ≡ false → IsWithin (start_adopted id requestor m)
  start_adopted-IsWithin m room = elim (Option-cases m.max_sessions) [
    | inl e ↦ rw e tt
    | inr (n, e) ↦
        let below : leb n (length m.server_instances) ≡ false = ground (arith, room, e) in
        rw e (
          ground (
            arith,
            below,
            length-set_at-le id (record { hooked = true; is_terminated = false })
                m.server_instances,
          ))
  ]

  admitted-IsWithin :
      (t : Option Transport) (m : Manager Object)
      → IsWithin m
      → IsWithin (admitted j id requestor now t m).manager
  admitted-IsWithin (some t) m h = h
  admitted-IsWithin none m h = elim (Bool-cases (at_session_limit m)) [
    | inl full ↦ rw full h
    | inr room ↦ rw room (start_adopted-IsWithin m room)
  ]

  -- Adoption keeps to the session limit: a manager that holds no more sessions than the limit, if there is
  -- one, holds no more after it.
  pub try_adopt-IsWithin :
      (found : Option (Option (SessionRecord Object))) (m : Manager Object)
      → IsWithin m
      → IsWithin (try_adopt j id requestor now found m).manager
  unfolding try_adopt
  try_adopt-IsWithin none m h = h
  try_adopt-IsWithin (some none) m h = h
  try_adopt-IsWithin (some (some r)) m h = elim (Bool-cases r.terminated) [
    | inl ended ↦ rw ended h
    | inr live ↦ elim (Bool-cases (owner_matches j r.owner requestor)) [
      | inl own ↦ rw (live, own) (admitted-IsWithin (value_at id m.server_instances) m h)
      | inr other ↦ rw (live, other) h
    ]
  ]
