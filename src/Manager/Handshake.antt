-- ===== src/Manager/Handshake.antt =====
-- src/mcp_persist/session_manager.py: the copy of an opening request's body, and the `initialize`
-- params in it. `json.loads` is a parameter.
use mcp_persist.Prelude.{
  ℕ, ◌<◌, ◌≡◌, refl, sym, ap, ◌∙◌, arith, Bool, true, false, List, [], ◌∷◌, ◌++◌, Option, none,
  some, codes, text_eq, ltb, leb, if◌then◌else◌, length, length-append, append_assoc, append-nil,
  Bool-cases, inl, inr,
}
use mcp_persist.Portability.{Json, Fields, object, array, string, values, get}

-- `_MAX_HANDSHAKE_BODY_BYTES`
abbrev pub max_handshake_body_bytes : ℕ
max_handshake_body_bytes = 65536

-- `receive_and_keep_opening_body`, for a chunk of the body
abbrev pub keep_opening_body : List ℕ → List ℕ → List ℕ
keep_opening_body body chunk =
    if leb (length body) max_handshake_body_bytes then body ++ chunk else body

unfoldable pub keep_all : List ℕ → List (List ℕ) → List ℕ
keep_all body [] = body
keep_all body (chunk ∷ chunks) = keep_all (keep_opening_body body chunk) chunks

abbrev pub joined : List (List ℕ) → List ℕ
joined [] = []
joined (chunk ∷ chunks) = chunk ++ joined chunks

-- `message.get("method") == "initialize"`
abbrev is_initialize : Option Json → Bool
is_initialize (some (string t)) = text_eq t (codes "initialize")
is_initialize _ = false

abbrev params_object : Option Json → Option Fields
params_object (some (object fs)) = some fs
params_object _ = none

unfoldable pub first_initialize : List Json → Option Fields
first_initialize [] = none
first_initialize (object fs ∷ messages) =
    let rest = first_initialize messages in
    if is_initialize (get (codes "method") fs)
    then params_object (get (codes "params") fs)
    else rest
first_initialize (_ ∷ messages) = first_initialize messages

abbrev messages_of : Json → List Json
messages_of (array xs) = values xs
messages_of m = m ∷ []

abbrev params_in : Option Json → Option Fields
params_in none = none
params_in (some payload) = first_initialize (messages_of payload)

module _ (loads : List ℕ → Option Json) where
  -- `_initialize_params`
  abbrev pub initialize_params : List ℕ → Option Fields
  initialize_params [] = none
  initialize_params (b ∷ body) =
      if ltb max_handshake_body_bytes (length (b ∷ body))
      then none
      else params_in (loads (b ∷ body))

  initialize_params_over :
      (body : List ℕ) → max_handshake_body_bytes < length body → initialize_params body ≡ none
  initialize_params_over [] h = refl
  initialize_params_over (b ∷ body) h =
      let over : ltb max_handshake_body_bytes (length (b ∷ body)) ≡ true = ground (arith, h) in
      ap (λ c. if c then none else params_in (loads (b ∷ body))) over

  keep_all_over :
      (body : List ℕ) (chunks : List (List ℕ))
      → max_handshake_body_bytes < length body
      → keep_all body chunks ≡ body
  unfolding keep_all
  keep_all_over body [] h = refl
  keep_all_over body (chunk ∷ chunks) h =
      let full : leb (length body) max_handshake_body_bytes ≡ false = ground (arith, h) in
      ap (λ b. keep_all (if b then body ++ chunk else body) chunks) full
      ∙ keep_all_over body chunks h

  -- The params that are recorded do not depend on how the body was cut into chunks: those of the whole
  -- body, or none where it is over the limit.
  pub initialize_params-keep_all :
      (body : List ℕ) (chunks : List (List ℕ))
      → initialize_params (keep_all body chunks) ≡ initialize_params (body ++ joined chunks)
  unfolding keep_all
  initialize_params-keep_all body [] = ap initialize_params (sym (append-nil body))
  initialize_params-keep_all body (chunk ∷ chunks) =
      elim (Bool-cases (leb (length body) max_handshake_body_bytes)) [
        | inl room ↦
            ap (λ b. initialize_params (keep_all (if b then body ++ chunk else body) chunks)) room
            ∙ initialize_params-keep_all (body ++ chunk) chunks
            ∙ ap initialize_params (append_assoc body chunk (joined chunks))
        | inr full ↦
            let over : max_handshake_body_bytes < length body = ground (arith, full) in
            ap (λ b. initialize_params (keep_all (if b then body ++ chunk else body) chunks)) full
            ∙ ap initialize_params (keep_all_over body chunks over)
            ∙ initialize_params_over body over
            ∙ sym (
                initialize_params_over (body ++ (chunk ++ joined chunks))
                  (omega (arith, length-append body (chunk ++ joined chunks), over)))
      ]
