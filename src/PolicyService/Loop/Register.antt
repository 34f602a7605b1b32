-- ===== src/PolicyService/Loop/Register.antt =====
-- What a policy service promises of its three values: the key it verifies with, the policy in memory
-- and the policy on disk. It knows nothing of tasks, replies or temporary files.
use chromiumos_platform_logi.Prelude.{ℕ, ◌≡◌, ◌⊎◌, inr, some, subst, Text}
use chromiumos_platform_logi.Platform.Crypto.{NssLibrary}
use chromiumos_platform_logi.Platform.Messages.{PolicyFetchResponse, Codec}
use chromiumos_platform_logi.PolicyKey.{PolicyKey, Beyond}
use chromiumos_platform_logi.PolicyService.Storing.{IsVerified, KeyStep}

pub record Register : Type 0 where
  pub key : PolicyKey
  pub memory : PolicyFetchResponse
  pub saved : Text

-- `Offered` tells with which flags a policy was handed in.
module _ (lib : NssLibrary) (beyond : Beyond) (c : Codec)
    (Offered : PolicyFetchResponse → ℕ → Type 0) where
  -- The key changes in the ways that a message that was handed in and its flags allow. A policy is taken into memory
  -- only under a signature of the key then in use. The disk gets what is in memory.
  pub data Move (r r' : Register) : Type 0 where
    accept :
        (policy : PolicyFetchResponse) (flags : ℕ)
        → Offered policy flags
        → KeyStep lib beyond policy flags r.key r'.key
        → IsVerified lib policy r'.key
        → r'.memory ≡ policy
        → r'.saved ≡ r.saved
        → Move r r'
    rekey :
        (policy : PolicyFetchResponse) (flags : ℕ)
        → Offered policy flags
        → KeyStep lib beyond policy flags r.key r'.key
        → r'.memory ≡ r.memory
        → r'.saved ≡ r.saved
        → Move r r'
    save :
        r'.key ≡ r.key
        → r'.memory ≡ r.memory
        → c.serialize_response r.memory ≡ some r'.saved
        → Move r r'

  pub data Moves : Register → Register → Type 0 where
    stay : {r r' : Register} → r' ≡ r → Moves r r'
    onward : {r t r' : Register} → Move r t → Moves t r' → Moves r r'

  pub Moves-trans : {r t u : Register} → Moves r t → Moves t u → Moves r u
  Moves-trans {u} (stay e) second = subst (λ (q : Register). Moves q u) e second
  Moves-trans (onward m first) second = onward m (Moves-trans first second)

  -- The keys to which changes lead from a first one that the messages handed in and their flags allow.
  pub data Descends (k : PolicyKey) : PolicyKey → Type 0 where
    first_key : {k' : PolicyKey} → k' ≡ k → Descends k k'
    changed :
        {t k' : PolicyKey} (policy : PolicyFetchResponse) (flags : ℕ)
        → Descends k t
        → Offered policy flags
        → KeyStep lib beyond policy flags t k'
        → Descends k k'

  -- The policy was handed in, and a key that the first one leads to has signed it.
  abbrev pub IsSigned : PolicyKey → PolicyFetchResponse → Type 0
  IsSigned k₀ policy =
      ((flags : ℕ) × Offered policy flags)
      × ((k : PolicyKey) × Descends k₀ k × IsVerified lib policy k)

  -- The policy that was first in memory, or one that is signed so.
  abbrev pub IsGenuine : PolicyKey → PolicyFetchResponse → PolicyFetchResponse → Type 0
  IsGenuine k₀ first policy = (policy ≡ first) ⊎ IsSigned k₀ policy

  -- The key comes from the first one, memory is genuine, and so is what the disk got since, if it
  -- got something.
  abbrev pub Holds : PolicyKey → PolicyFetchResponse → Text → Register → Type 0
  Holds k₀ first old r =
      Descends k₀ r.key
      × IsGenuine k₀ first r.memory
      × ((r.saved ≡ old)
          ⊎ ((policy : PolicyFetchResponse) × IsGenuine k₀ first policy
              × (c.serialize_response policy ≡ some r.saved)))

  Move-Holds :
      (k₀ : PolicyKey) (first : PolicyFetchResponse) (old : Text) (r r' : Register)
      → Move r r'
      → Holds k₀ first old r
      → Holds k₀ first old r'
  Move-Holds k₀ first old r r' (accept policy flags offered step signed taken kept)
        (from, _, disk) =
      let now : Descends k₀ r'.key = changed policy flags from offered step in
      (now, inr (rw taken (flags, offered), (r'.key, now, rw taken signed)), rw kept disk)
  Move-Holds k₀ first old r r' (rekey policy flags offered step kept kept') (from, genuine, disk) =
      (changed policy flags from offered step, rw kept genuine, rw kept' disk)
  Move-Holds k₀ first old r r' (save key kept written) (from, genuine, disk) =
      (rw key from, rw kept genuine, inr (r.memory, genuine, written))

  pub Moves-Holds :
      (k₀ : PolicyKey) (first : PolicyFetchResponse) (old : Text) {r r' : Register}
      → Moves r r'
      → Holds k₀ first old r
      → Holds k₀ first old r'
  Moves-Holds k₀ first old (stay e) h = rw e h
  Moves-Holds k₀ first old (onward {r} {t} m ms) h =
      Moves-Holds k₀ first old ms (Move-Holds k₀ first old r t m h)
