-- ===== src/Repository/UnreadCache/Sets.antt =====
-- The Redis sets of internal/repository/unread_cache.go and what their counts mean.
use bs_notify_hub.Prelude.{
  suc, ◌+◌, ◌≡◌, refl, Bool, true, false, not, ◌||◌, List, [], ◌∷◌, ◌++◌, String, same, string_key,
  same_iff, arith, length, count_where, if◌then◌else◌,
}
use bs_notify_hub.Repository.UnreadCache.{is_member, set_add, set_add_all, inter_card, diff_count}

pub is_member-append :
    (a : String) (xs ys : List String) → is_member a (xs ++ ys) ≡ (is_member a xs || is_member a ys)
unfolding is_member
is_member-append a [] ys = refl
is_member-append a (x ∷ xs) ys = ground (arith, is_member-append a xs ys)

pub is_member-set_add :
    (a b : String) (xs : List String) → is_member b (set_add a xs) ≡ (same a b || is_member b xs)
unfolding set_add is_member
is_member-set_add a b xs = ground (arith, is_member-append b xs (a ∷ []), same_iff a b)

-- SUNIONSTORE and SADD put in what they are given, and nothing else.
pub is_member-set_add_all :
    (b : String) (as_ xs : List String)
    → is_member b (set_add_all as_ xs) ≡ (is_member b as_ || is_member b xs)
unfolding set_add_all is_member
is_member-set_add_all b [] xs = refl
is_member-set_add_all b (a ∷ as_) xs =
    ground (arith, is_member-set_add_all b as_ (set_add a xs), is_member-set_add a b xs)

-- The set lists no member twice.
abbrev pub NoRepeat : List String → Type 0
NoRepeat [] = Unit
NoRepeat (x ∷ xs) = (is_member x xs ≡ false) × NoRepeat xs

count_where-not :
    (p : String → Bool) (xs : List String)
    → count_where p xs + count_where (λ a. not (p a)) xs ≡ length xs
count_where-not p [] = refl
count_where-not p (x ∷ xs) = ground (arith, count_where-not p xs)

-- The script's difference of two cardinalities is the number of the members of one set that are not
-- in the other.
pub diff_count_lem :
    (total op : List String) → diff_count total op ≡ count_where (λ a. not (is_member a op)) total
unfolding diff_count inter_card
diff_count_lem total op = ground (arith, count_where-not (λ a. is_member a op) total)

count_where-none :
    (p : String → Bool) (xs : List String)
    → ((a : String) → is_member a xs ≡ true → p a ≡ false)
    → count_where p xs ≡ 0
unfolding is_member
count_where-none p [] h = refl
count_where-none p (x ∷ xs) h =
    ground (arith, h x, same_iff x x, count_where-none p xs (λ a k. ground (arith, h a)))

-- After the union nothing is left over.
pub diff_count-set_add_all : (total op : List String) → diff_count total (set_add_all total op) ≡ 0
diff_count-set_add_all total op = ground (
  arith,
  diff_count_lem total (set_add_all total op),
  count_where-none (λ a. not (is_member a (set_add_all total op))) total
      (λ a h. ground (arith, is_member-set_add_all a total op)),
)

count_where-set_add :
    (a : String) (op total : List String)
    → NoRepeat total
    → is_member a op ≡ false
    → count_where (λ b. not (is_member b (set_add a op))) total
        + (if is_member a total then 1 else 0)
      ≡ count_where (λ b. not (is_member b op)) total
unfolding is_member
count_where-set_add a op [] d h = refl
count_where-set_add a op (x ∷ total) d h = ground (
  arith,
  same_iff x a,
  same_iff a x,
  is_member-set_add a x op,
  count_where-set_add a op total d.1 h,
)

-- The first operation on a broadcast takes one from the difference, if the set of all lists it.
pub diff_count-set_add :
    (a : String) (total op : List String)
    → NoRepeat total
    → is_member a total ≡ true
    → is_member a op ≡ false
    → diff_count total op ≡ suc (diff_count total (set_add a op))
diff_count-set_add a total op d h k = ground (
  arith,
  diff_count_lem total op,
  diff_count_lem total (set_add a op),
  count_where-set_add a op total d k,
)
