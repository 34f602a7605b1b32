-- ===== src/PolicyKey/Equality.antt =====
-- What `VEquals` of policy_key.cc compares: as many bytes as the key has, never the lengths.
use chromiumos_platform_logi.Prelude.{
  ◌≤◌, ◌≡◌, ◌≢◌, refl, sym, ◌∙◌, ◌↔◌, true, [], ◌∷◌, length, take, Text, arith,
}
use chromiumos_platform_logi.PolicyKey.{PolicyKey, Beyond, same_bytes, v_equals}

same_bytes→take :
    (beyond : Beyond) (xs ys : Text)
    → length ys ≤ length xs
    → same_bytes beyond xs ys ≡ true
    → take (length ys) xs ≡ ys
unfolding same_bytes
same_bytes→take beyond xs [] le h = refl
same_bytes→take beyond [] (y ∷ ys) le h = absurd (omega arith)
same_bytes→take beyond (x ∷ xs) (y ∷ ys) le h = ground (arith, same_bytes→take beyond xs ys)

take→same_bytes :
    (beyond : Beyond) (xs ys : Text)
    → length ys ≤ length xs
    → take (length ys) xs ≡ ys
    → same_bytes beyond xs ys ≡ true
unfolding same_bytes
take→same_bytes beyond xs [] le h = refl
take→same_bytes beyond [] (y ∷ ys) le h = absurd (omega arith)
take→same_bytes beyond (x ∷ xs) (y ∷ ys) le h = ground (arith, take→same_bytes beyond xs ys)

take_all : (xs ys : Text) → length xs ≡ length ys → take (length ys) xs ≡ xs
take_all [] [] e = refl
take_all [] (y ∷ ys) e = absurd (omega arith)
take_all (x ∷ xs) [] e = absurd (omega arith)
take_all (x ∷ xs) (y ∷ ys) e = ground (arith, take_all xs ys)

equals_by :
    (beyond : Beyond) (k : PolicyKey) (der key : Text)
    → k.key ≡ key
    → key ≢ []
    → length key ≤ length der
    → (v_equals beyond k der ≡ true) ↔ (same_bytes beyond der key ≡ true)
unfolding v_equals same_bytes
equals_by beyond k der [] e ne le = absurd (ne refl)
equals_by beyond k [] (y ∷ ys) e ne le = absurd (omega arith)
equals_by beyond k (x ∷ xs) (y ∷ ys) e ne le = rw e ((λ h. h), (λ h. h))

-- A candidate at least as long as the stored key counts as equal exactly if it begins with the
-- stored key.
pub v_equals-iff-prefix :
    (beyond : Beyond) (k : PolicyKey) (der : Text)
    → k.key ≢ []
    → length k.key ≤ length der
    → (v_equals beyond k der ≡ true) ↔ (take (length k.key) der ≡ k.key)
v_equals-iff-prefix beyond k der ne le =
    let half = equals_by beyond k der k.key refl ne le in
    (
      (λ h. same_bytes→take beyond der k.key le (half.0 h)),
      (λ h. half.1 (take→same_bytes beyond der k.key le h)),
    )

eq_by :
    (beyond : Beyond) (k : PolicyKey) (der key : Text)
    → k.key ≡ key
    → length der ≡ length key
    → (v_equals beyond k der ≡ true) ↔ (der ≡ key)
unfolding v_equals same_bytes
eq_by beyond k [] [] e l = rw e ((λ h. refl), (λ h. refl))
eq_by beyond k (x ∷ xs) [] e l = absurd (omega arith)
eq_by beyond k der (y ∷ ys) e l =
    let half = equals_by beyond k der (y ∷ ys) e (λ h. cc) (omega arith) in
    (
      (λ h.
          sym (take_all der (y ∷ ys) l)
          ∙ same_bytes→take beyond der (y ∷ ys) (omega arith) (half.0 h)),
      (λ h.
          half.1 (take→same_bytes beyond der (y ∷ ys) (omega arith) (take_all der (y ∷ ys) l ∙ h))),
    )

-- Among candidates of the stored key's length the test is equality.
pub v_equals-iff-eq :
    (beyond : Beyond) (k : PolicyKey) (der : Text)
    → length der ≡ length k.key
    → (v_equals beyond k der ≡ true) ↔ (der ≡ k.key)
v_equals-iff-eq beyond k der l = eq_by beyond k der k.key refl l
