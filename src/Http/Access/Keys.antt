-- ===== src/Http/Access/Keys.antt =====
-- internal/middleware/auth.go: which headers pass the check of the key.
use agentapi_plusplus.Http.Auth.{bearer, constant_time_equal, api_key_auth}
use agentapi_plusplus.Prelude.{
  ℕ, ◌≡◌, ◌↔◌, ◌⊎◌, refl, sym, ap, ◌∙◌, inl, inr, true, [], ◌∷◌, ◌++◌, none, arith, length, take,
  drop, take-append-drop, Text, text_eq, text_eq_iff, text_eq_refl,
}

constant_time_equal-true :
    (a b : Text) (n : ℕ) → constant_time_equal a b n ≡ true → text_eq a b ≡ true
unfolding constant_time_equal
constant_time_equal-true a b n h = ground (arith, h)

bearer-split :
    (key authz : Text)
    → text_eq (take (length bearer) authz) bearer ≡ true
    → constant_time_equal (drop (length bearer) authz) key (length key) ≡ true
    → authz ≡ bearer ++ key
bearer-split key authz h k =
    sym (take-append-drop (length bearer) authz)
    ∙ ap (λ s. s ++ drop (length bearer) authz) ((text_eq_iff _ _).0 h)
    ∙ ap (◌++◌ bearer) ((text_eq_iff _ _).0 (constant_time_equal-true _ _ _ k))

api_key_auth-accepted :
    (c : ℕ) (key authz : Text) → api_key_auth (c ∷ key) authz ≡ none → authz ≡ bearer ++ c ∷ key
unfolding api_key_auth
api_key_auth-accepted c key authz h =
    bearer-split (c ∷ key) authz (ground (arith, h)) (ground (arith, h))

api_key_auth-bearer : (c : ℕ) (key : Text) → api_key_auth (c ∷ key) (bearer ++ c ∷ key) ≡ none
unfolding api_key_auth constant_time_equal text_eq
api_key_auth-bearer c key = ground (arith, text_eq_refl key)

-- The key passes exactly where none is configured, or the header is the scheme and the key.
pub api_key_auth-none_iff :
    (key authz : Text) → (api_key_auth key authz ≡ none) ↔ ((key ≡ []) ⊎ (authz ≡ bearer ++ key))
unfolding api_key_auth
api_key_auth-none_iff [] authz = (λ h. inl refl, λ h. refl)
api_key_auth-none_iff (c ∷ key) authz = (
  λ h. inr (api_key_auth-accepted c key authz h),
  λ h. elim h [ inl e ↦ cc | inr e ↦ rw e (api_key_auth-bearer c key) ],
)
