-- ===== src/PolicyKey/Trust.antt =====
-- How a key in memory may change: policy_key.cc over a history of calls.
use chromiumos_platform_logi.Prelude.{◌≡◌, ◌≢◌, true, inl, inr, ◌⊎◌, List, [], ◌∷◌, Text, arith}
use chromiumos_platform_logi.Platform.Crypto.{NssLibrary}
use chromiumos_platform_logi.NssUtil
use chromiumos_platform_logi.PolicyKey.{
  PolicyKey, populate_from_buffer, verify, rotate, sha1_with_rsa,
}

-- The calls by which a key is set without clobbering.
pub data Change : Type 0 where
  buffer : Text → Change
  rotation : Text → Text → Change

-- `Endorsed lib a b`: from `a` a chain of keys leads to `b`, each signed by the one before.
pub data Endorsed (lib : NssLibrary) (a : Text) : Text → Type 0 where
  itself : Endorsed lib a a
  signed :
      {b : Text} (c signature : Text)
      → Endorsed lib a b
      → NssUtil.verify lib sha1_with_rsa signature c b ≡ true
      → Endorsed lib a c

abbrev pub IsProper : Change → Type 0
IsProper (buffer der) = Unit
IsProper (rotation der signature) = der ≢ []

abbrev pub AreProper : List Change → Type 0
AreProper [] = Unit
AreProper (c ∷ cs) = IsProper c × AreProper cs

module _ (lib : NssLibrary) where
  abbrev pub change : PolicyKey → Change → PolicyKey
  change k (buffer der) = (populate_from_buffer k der).0
  change k (rotation der signature) = (rotate lib k der signature).0

  pub changes : PolicyKey → List Change → PolicyKey
  changes k [] = k
  changes k (c ∷ cs) = changes (change k c) cs

  buffer_keeps :
      (k : PolicyKey) (der : Text) → k.key ≢ [] → (populate_from_buffer k der).0.key ≡ k.key
  unfolding populate_from_buffer
  buffer_keeps k der ne = ground arith

  rotate_cases :
      (k : PolicyKey) (der signature : Text)
      → ((rotate lib k der signature).0.key ≡ k.key)
        ⊎ (((rotate lib k der signature).0.key ≡ der)
            × (NssUtil.verify lib sha1_with_rsa signature der k.key ≡ true))
  unfolding rotate verify
  rotate_cases k der signature = ground arith

  change-Endorsed :
      (a : Text) (k : PolicyKey) (c : Change)
      → IsProper c
      → k.key ≢ []
      → Endorsed lib a k.key
      → Endorsed lib a (change k c).key × ((change k c).key ≢ [])
  change-Endorsed a k (buffer der) q ne e = rw (buffer_keeps k der ne) (e, ne)
  change-Endorsed a k (rotation der signature) q ne e = elim (rotate_cases k der signature) [
    | inl kept ↦ rw kept (e, ne)
    | inr (new, valid) ↦ rw new (signed der signature e valid, q)
  ]

  -- Whatever buffers and rotations arrive, a populated key only ever gives way to a key that a chain
  -- of valid signatures leads to from it, as long as no rotation is to the empty key.
  pub changes-Endorsed :
      (k : PolicyKey) (cs : List Change)
      → k.key ≢ []
      → AreProper cs
      → Endorsed lib k.key (changes k cs).key
  unfolding changes
  changes-Endorsed k cs ne q = go k cs ne q itself
    where
      go :
          (j : PolicyKey) (ds : List Change)
          → j.key ≢ []
          → AreProper ds
          → Endorsed lib k.key j.key
          → Endorsed lib k.key (changes j ds).key
      go j [] n r e = e
      go j (d ∷ ds) n r e =
          let (e', n') = change-Endorsed k.key j d r.0 n e in go (change j d) ds n' r.1 e'
