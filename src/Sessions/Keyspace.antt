-- ===== src/Sessions/Keyspace.antt =====
-- What lists of commands do to the hash of a session and to its score in the index.
use mcp_persist.Prelude.{
  ℕ, ◌≡◌, refl, ap, ◌∙◌, arith, Bool, true, false, List, [], ◌∷◌, ◌++◌, Option, none, some, Text,
  text_eq, text_eq_iff, text_eq_refl, leb, if◌then◌else◌, any, Bool-cases, inl, inr,
}
use mcp_persist.Sessions.Redis.{
  Hash, Redis, Command, put_hash, without_member, insert_member, newer_than, exec_all, exec, Write,
  write, hash_write, hash_writes, zadd, seen_commands, hash_or_empty, purge_commands, zrem_commands,
  old_members,
}

-- The scores of a member: at most one.
abbrev pub scores : Text → List (Text × ℕ) → List ℕ
scores id [] = []
scores id ((x, n) ∷ index) = if text_eq x id then n ∷ scores id index else scores id index

scores-without_member :
    (id : Text) (index : List (Text × ℕ)) → scores id (without_member id index) ≡ []
scores-without_member id [] = refl
scores-without_member id ((x, n) ∷ index) =
    ground (arith, scores-without_member id index, text_eq_iff x id, text_eq_iff id x)

scores-without_member_other :
    (x id : Text) (index : List (Text × ℕ))
    → text_eq x id ≡ false
    → scores id (without_member x index) ≡ scores id index
scores-without_member_other x id [] ne = refl
scores-without_member_other x id ((y, n) ∷ index) ne = elim (Bool-cases (text_eq x y)) [
  | inl e ↦ ground (arith, e, ne, (text_eq_iff x y).0 e, scores-without_member_other x id index ne)
  | inr e ↦ ground (arith, e, scores-without_member_other x id index ne)
]

scores-insert_member :
    (id : Text) (n : ℕ) (index : List (Text × ℕ))
    → scores id index ≡ []
    → scores id (insert_member (id, n) index) ≡ n ∷ []
unfolding insert_member
scores-insert_member id n [] h = ground (arith, text_eq_refl id)
scores-insert_member id n ((y, m) ∷ index) h = elim (Bool-cases (newer_than (id, n) (y, m))) [
  | inl e ↦ ground (arith, e, h, text_eq_refl id)
  | inr e ↦ ground (arith, e, h, scores-insert_member id n index)
]

scores-insert_member_other :
    (x id : Text) (n : ℕ) (index : List (Text × ℕ))
    → text_eq x id ≡ false
    → scores id (insert_member (x, n) index) ≡ scores id index
unfolding insert_member
scores-insert_member_other x id n [] ne = ground (arith, ne)
scores-insert_member_other x id n ((y, m) ∷ index) ne =
    elim (Bool-cases (newer_than (x, n) (y, m))) [
      | inl e ↦ ground (arith, e, ne)
      | inr e ↦ ground (arith, e, scores-insert_member_other x id n index ne)
    ]

abbrev pub contains : Text → List Text → Bool
contains id [] = false
contains id (x ∷ xs) = if text_eq x id then true else contains id xs

pub contains-old_members :
    (id : Text) (cutoff : ℕ) (index : List (Text × ℕ))
    → contains id (old_members cutoff index) ≡ any (λ n. leb n cutoff) (scores id index)
contains-old_members id cutoff [] = refl
contains-old_members id cutoff ((x, n) ∷ index) = elim (Bool-cases (leb n cutoff)) [
  | inl e ↦ ground (arith, e, contains-old_members id cutoff index)
  | inr e ↦ ground (arith, e, contains-old_members id cutoff index)
]

pub exec_all-append :
    (a b : List Command) (s : Redis) → exec_all (a ++ b) s ≡ exec_all b (exec_all a s)
unfolding exec_all
exec_all-append [] b s = refl
exec_all-append (c ∷ a) b s = exec_all-append a b _

pub hashes-purge_commands :
    (names : List Text) (s : Redis) (id : Text)
    → (exec_all (purge_commands names) s).hashes id
      ≡ (if contains id names then none else s.hashes id)
unfolding exec_all
hashes-purge_commands [] s id = refl
hashes-purge_commands (x ∷ names) s id =
    hashes-purge_commands names (record s { hashes = put_hash x none s.hashes }) id ∙ ground arith

pub index-purge_commands :
    (names : List Text) (s : Redis) → (exec_all (purge_commands names) s).index ≡ s.index
unfolding exec_all
index-purge_commands [] s = refl
index-purge_commands (x ∷ names) s = index-purge_commands names _

pub hashes-zrem_commands :
    (names : List Text) (s : Redis) → (exec_all (zrem_commands names) s).hashes ≡ s.hashes
unfolding exec_all
hashes-zrem_commands [] s = refl
hashes-zrem_commands (x ∷ names) s = hashes-zrem_commands names _

pub scores-zrem_commands :
    (names : List Text) (s : Redis) (id : Text)
    → contains id names ≡ false
    → scores id (exec_all (zrem_commands names) s).index ≡ scores id s.index
unfolding exec_all
scores-zrem_commands [] s id h = refl
scores-zrem_commands (x ∷ names) s id h =
    scores-zrem_commands names _ id (ground (arith, h))
    ∙ scores-without_member_other x id s.index (ground (arith, h))

abbrev pub written_hash : List Write → Option Hash → Option Hash
written_hash [] h = h
written_hash (w ∷ ws) h = written_hash ws (some (write w (hash_or_empty h)))

hashes-hash_writes :
    (x : Text) (ws : List Write) (s : Redis)
    → (exec_all (hash_writes x ws) s).hashes x ≡ written_hash ws (s.hashes x)
unfolding exec_all
hashes-hash_writes x [] s = refl
hashes-hash_writes x (w ∷ ws) s =
    hashes-hash_writes x ws (exec (hash_write x w) s)
    ∙ ap
        (λ b.
          written_hash ws (if b then some (write w (hash_or_empty (s.hashes x))) else s.hashes x))
        (text_eq_refl x)

hashes-hash_writes_other :
    (x id : Text) (ws : List Write) (s : Redis)
    → text_eq x id ≡ false
    → (exec_all (hash_writes x ws) s).hashes id ≡ s.hashes id
unfolding exec_all
hashes-hash_writes_other x id [] s ne = refl
hashes-hash_writes_other x id (w ∷ ws) s ne =
    hashes-hash_writes_other x id ws (exec (hash_write x w) s) ne
    ∙ ap (λ b. if b then some (write w (hash_or_empty (s.hashes x))) else s.hashes id) ne

index-hash_writes :
    (x : Text) (ws : List Write) (s : Redis) → (exec_all (hash_writes x ws) s).index ≡ s.index
unfolding exec_all
index-hash_writes x [] s = refl
index-hash_writes x (w ∷ ws) s = index-hash_writes x ws (exec (hash_write x w) s)

-- One session is written and seen, and no other is touched.
pub record Seen (x : Text) (h : Option Hash) (now : ℕ) (s s' : Redis) : Type 0 where
  pub hash : s'.hashes x ≡ h
  pub other_hash : (id : Text) → text_eq x id ≡ false → s'.hashes id ≡ s.hashes id
  pub score : scores x s'.index ≡ now ∷ []
  pub other_score : (id : Text) → text_eq x id ≡ false → scores id s'.index ≡ scores id s.index

pub seen_commands-Seen :
    (x : Text) (ws : List Write) (now : ℕ) (s : Redis)
    → Seen x (written_hash ws (s.hashes x)) now s (exec_all (seen_commands x ws now) s)
unfolding exec_all
seen_commands-Seen x ws now s =
    let split = exec_all-append (hash_writes x ws) (zadd x now ∷ []) s in
    let t = exec_all (hash_writes x ws) s in
    record {
      hash = ap (λ u. u.hashes x) split ∙ hashes-hash_writes x ws s;
      other_hash = λ id ne. ap (λ u. u.hashes id) split ∙ hashes-hash_writes_other x id ws s ne;
      score =
          ap (λ u. scores x u.index) split
          ∙ scores-insert_member x now (without_member x t.index) (scores-without_member x t.index);
      other_score = λ id ne.
          ap (λ u. scores id u.index) split
          ∙ scores-insert_member_other x id now (without_member x t.index) ne
          ∙ scores-without_member_other x id t.index ne
          ∙ ap (scores id) (index-hash_writes x ws s);
    }
