-- ===== src/Constant/Keys.antt =====
-- When two Redis keys of internal/constant/app.go are equal.
use Prim.Native.Char.{Char, code}
use Prim.Native.String.{◌++◌}
use text.Mathlib.TextLemmas.{append_assoc, append_cancel_left, nil-append, cons-append}
use bs_notify_hub.Prelude.{
  ◌↔◌, String, ◌≡◌, ◌≢◌, refl, ap, ◌∙◌, arith, ℕ, Bool, true, false, if◌then◌else◌, ◌==◌,
}
use bs_notify_hub.Constant.{
  get_unread_personal_key, get_unread_tenant_key, get_broadcast_op_key, get_broadcast_total_key,
  wrap_key, space_prefix, key_unread_personal_prefix, key_unread_tenant_prefix,
  key_broadcast_op_prefix, key_broadcast_total_prefix,
}

-- The keys of a tenant "a:b" and of a tenant "a" meet: the colon separates nothing inside an id.
pub unread_personal_key_collision :
    (a b c : String)
    → get_unread_personal_key (a ++ (":" ++ b)) c ≡ get_unread_personal_key a (b ++ (":" ++ c))
unfolding get_unread_personal_key
unread_personal_key_collision a b c = simp append_assoc

-- The text has no colon.
abbrev pub no_colon : String → Bool
no_colon String.[] = true
no_colon (String.◌∷◌ c s) = if code c == 58 then false else no_colon s

abbrev colon : Char
colon = ":"

colon_append : (b : String) → ":" ++ b ≡ String.◌∷◌ colon b
colon_append b = cons-append colon "" b ∙ ap (String.◌∷◌ colon) (nil-append b)

ruleset spelled = (nil-append, cons-append, colon_append)

abbrev head_code : String → ℕ
head_code String.[] = 0
head_code (String.◌∷◌ c s) = code c

colon_split :
    (a a' b b' : String)
    → no_colon a ≡ true
    → no_colon a' ≡ true
    → a ++ (":" ++ b) ≡ a' ++ (":" ++ b')
    → (a ≡ a') × (b ≡ b')
colon_split String.[] String.[] b b' h h' e = let q = simp spelled at e in (refl, cc q)
colon_split String.[] (String.◌∷◌ c' a') b b' h h' e =
    let q = ap head_code (simp spelled at e) in ground (arith, q)
colon_split (String.◌∷◌ c a) String.[] b b' h h' e =
    let q = ap head_code (simp spelled at e) in ground (arith, q)
colon_split (String.◌∷◌ c a) (String.◌∷◌ c' a') b b' h h' e =
    let q = simp cons-append at e in
    let r = colon_split a a' b b' (ground arith) (ground arith) (cc q) in (cc (q, r.0), r.1)

-- Two texts that differ at a place which both have.
abbrev clash : String → String → Bool
clash String.[] q = false
clash (String.◌∷◌ c p) String.[] = false
clash (String.◌∷◌ c p) (String.◌∷◌ d q) = if code c == code d then clash p q else true

clash_append : (p q x y : String) → clash p q ≡ true → p ++ x ≢ q ++ y
clash_append String.[] q x y h e = cc
clash_append (String.◌∷◌ c p) String.[] x y h e = cc
clash_append (String.◌∷◌ c p) (String.◌∷◌ d q) x y h e =
    let s = simp cons-append at e in
    ground (arith, ap head_code s, clash_append p q x y (ground (arith, ap head_code s)) (cc s))

wrapped_clash : (p q x y : String) → clash p q ≡ true → wrap_key (p ++ x) ≢ wrap_key (q ++ y)
unfolding wrap_key
wrapped_clash p q x y h e = clash_append p q x y h (append_cancel_left space_prefix _ _ e)

-- The keys of a user's three entries never meet, nor do they meet a tenant's set of broadcasts,
-- whatever the ids are.
pub keys_apart :
    (t u t' u' : String)
    → (get_unread_personal_key t u ≢ get_unread_tenant_key t' u')
      × (get_unread_personal_key t u ≢ get_broadcast_op_key t' u')
      × (get_unread_tenant_key t u ≢ get_broadcast_op_key t' u')
      × (get_unread_personal_key t u ≢ get_broadcast_total_key t')
      × (get_unread_tenant_key t u ≢ get_broadcast_total_key t')
      × (get_broadcast_op_key t u ≢ get_broadcast_total_key t')
unfolding get_unread_personal_key get_unread_tenant_key get_broadcast_op_key get_broadcast_total_key
keys_apart t u t' u' = (
  wrapped_clash key_unread_personal_prefix key_unread_tenant_prefix _ _ refl,
  wrapped_clash key_unread_personal_prefix key_broadcast_op_prefix _ _ refl,
  wrapped_clash key_unread_tenant_prefix key_broadcast_op_prefix _ _ refl,
  wrapped_clash key_unread_personal_prefix key_broadcast_total_prefix _ _ refl,
  wrapped_clash key_unread_tenant_prefix key_broadcast_total_prefix _ _ refl,
  wrapped_clash key_broadcast_op_prefix key_broadcast_total_prefix _ _ refl,
)

strip : (p x y : String) → wrap_key (p ++ (":" ++ x)) ≡ wrap_key (p ++ (":" ++ y)) → x ≡ y
unfolding wrap_key
strip p x y e =
    append_cancel_left ":" x y (append_cancel_left p _ _ (append_cancel_left space_prefix _ _ e))

colon_split_iff :
    {P : Type 0} (t u t' u' : String)
    → no_colon t ≡ true
    → no_colon t' ≡ true
    → (P → t ++ (":" ++ u) ≡ t' ++ (":" ++ u'))
    → ((t ≡ t') × (u ≡ u') → P)
    → P ↔ ((t ≡ t') × (u ≡ u'))
colon_split_iff t u t' u' h h' f g = (λ e. colon_split t t' u u' h h' (f e), g)

-- For tenants with no colon in their ids, two keys of one kind are equal if and only if the
-- tenants and the users are equal.
pub user_keys_injective :
    (t u t' u' : String)
    → no_colon t ≡ true
    → no_colon t' ≡ true
    → ((get_unread_personal_key t u ≡ get_unread_personal_key t' u') ↔ ((t ≡ t') × (u ≡ u')))
      × ((get_unread_tenant_key t u ≡ get_unread_tenant_key t' u') ↔ ((t ≡ t') × (u ≡ u')))
      × ((get_broadcast_op_key t u ≡ get_broadcast_op_key t' u') ↔ ((t ≡ t') × (u ≡ u')))
unfolding get_unread_personal_key get_unread_tenant_key get_broadcast_op_key
user_keys_injective t u t' u' h h' = (
  colon_split_iff t u t' u' h h' (strip key_unread_personal_prefix _ _) (λ e. cc (e.0, e.1)),
  colon_split_iff t u t' u' h h' (strip key_unread_tenant_prefix _ _) (λ e. cc (e.0, e.1)),
  colon_split_iff t u t' u' h h' (strip key_broadcast_op_prefix _ _) (λ e. cc (e.0, e.1)),
)

-- The keys of two tenants' sets of broadcasts are equal only for one tenant.
pub total_key_injective :
    (t t' : String) → get_broadcast_total_key t ≡ get_broadcast_total_key t' → t ≡ t'
unfolding get_broadcast_total_key
total_key_injective t t' e = strip key_broadcast_total_prefix t t' e
