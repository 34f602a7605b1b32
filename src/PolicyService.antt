-- ===== src/PolicyService.antt =====
-- policy_service.h and policy_service.cc: policy is verified, kept and written by posted tasks.
-- A key may be shared by services, so it stands in the state that a call is given.
pub mod KeyInstall
pub mod Examples
pub mod Storing
pub mod Replies
pub mod Loop
use chromiumos_platform_logi.Prelude.{
  ℕ, ◌+◌, ◌≡◌, Bool, true, false, not, ◌&&◌, Option, none, some, List, [], ◌∷◌, ◌++◌, length,
  is_some, Text, codes, bit_and, ◌==◌, if◌then◌else◌, Outcome, done, died, ◌>>=◌,
}
use chromiumos_platform_logi.Platform.Files.{FileSystem}
use chromiumos_platform_logi.Platform.Crypto.{NssLibrary}
use chromiumos_platform_logi.Platform.Messages.{PolicyFetchResponse, Codec, string_of}
use chromiumos_platform_logi.NssUtil.{blob_from_buffer}
use chromiumos_platform_logi.PolicyKey
use chromiumos_platform_logi.PolicyKey.{PolicyKey, Beyond, is_populated}
use chromiumos_platform_logi.PolicyStore
use chromiumos_platform_logi.PolicyStore.{PolicyStore}

abbrev pub key_rotate : ℕ
key_rotate = 1

abbrev pub key_install_new : ℕ
key_install_new = 2

abbrev pub key_clobber : ℕ
key_clobber = 4

-- `flags & flag` as a condition.
unfoldable pub has_flag : ℕ → ℕ → Bool
has_flag flags flag = not (bit_and flags flag == 0)

-- The codes of chromeos/dbus/error_constants.h that the program uses.
pub data ErrorCode : Type 0 where
  decode_fail encode_fail illegal_pubkey verify_fail invalid_email session_exists : ErrorCode
  already_session no_user_nssdb policy_init_fail unknown_pid illegal_service emit_failed : ErrorCode

pub record Error : Type 0 where
  pub code : ErrorCode
  pub message : Text

-- A completion, named by a number, is told of its outcome once.
pub data Reply : Type 0 where
  success : ℕ → Reply
  failure : ℕ → Error → Reply

-- What waits on the message loop; a completion may be absent.
pub data Task : Type 0 where
  persist_key : Task
  persist_policy : Option ℕ → Task

-- What the delegate is told.
pub data Notice : Type 0 where
  policy_persisted key_persisted : Bool → Notice

pub record State (Disk : Type 0) : Type 0 where
  pub disk : Disk
  pub key : PolicyKey
  pub store : PolicyStore
  pub has_delegate : Bool
  pub posted : List Task  -- oldest first
  pub replies : List Reply  -- oldest first
  pub notices : List Notice  -- oldest first

abbrev pub parse_error : Error
parse_error = record { code = decode_fail; message = codes "Unable to parse policy protobuf." }

abbrev pub install_error : Error
install_error = record { code = illegal_pubkey; message = codes "Failed to install policy key!" }

abbrev pub signature_error : Error
signature_error = record { code = verify_fail; message = codes "Signature could not be verified." }

abbrev pub persist_error : Error
persist_error = record { code = encode_fail; message = codes "Failed to persist policy to disk." }

module _ {Disk : Type 0} where
  unfoldable pub reply : State Disk → Reply → State Disk
  reply s r = record s { replies = s.replies ++ r ∷ [] }

  unfoldable pub post : State Disk → Task → State Disk
  post s t = record s { posted = s.posted ++ t ∷ [] }

  unfoldable pub notify : State Disk → Notice → State Disk
  notify s n = if s.has_delegate then record s { notices = s.notices ++ n ∷ [] } else s

  -- `PersistKey`, `PersistPolicy` and `PersistPolicyWithCompletion`.
  unfoldable pub post_persist_key : State Disk → State Disk
  unfolding post
  post_persist_key s = post s persist_key

  unfoldable pub post_persist_policy : State Disk → Option ℕ → State Disk
  unfolding post
  post_persist_policy s completion = post s (persist_policy completion)

-- The first attempt: a rotation of the key that is there, or the first key.
unfoldable pub rotate_or_install :
    NssLibrary → ℕ → PolicyKey → PolicyFetchResponse → Text → PolicyKey × Bool
rotate_or_install lib flags k policy der =
    let rotated =
      PolicyKey.rotate lib k der (blob_from_buffer (string_of policy.new_public_key_signature)) in
    let first = PolicyKey.populate_from_buffer k der in
    if is_populated k
    then (if is_some policy.new_public_key_signature && has_flag flags key_rotate
        then rotated
        else (k, false))
    else (if has_flag flags key_install_new then first else (k, false))

-- The second, if the first has not installed the key.
unfoldable pub clobber_if_allowed : ℕ → Text → PolicyKey × Bool → Outcome (PolicyKey × Bool)
clobber_if_allowed flags der (k, true) = done (k, true)
clobber_if_allowed flags der (k, false) =
    if has_flag flags key_clobber then PolicyKey.clobber_compromised_key k der else done (k, false)

unfoldable pub install_key :
    NssLibrary → ℕ → PolicyKey → PolicyFetchResponse → Text → Outcome (PolicyKey × Bool)
install_key lib flags k policy der =
    clobber_if_allowed flags der (rotate_or_install lib flags k policy der)

-- A key that differs from the one in use has to be installed first.
unfoldable pub has_other_key : Beyond → PolicyKey → PolicyFetchResponse → Bool
has_other_key beyond k policy =
    is_some policy.new_public_key
    && not (PolicyKey.equals beyond k (string_of policy.new_public_key))

module _ {Disk : Type 0} (lib : NssLibrary) (beyond : Beyond) where
  -- The second half of `StorePolicy`: signature, memory, and the write to come.
  unfoldable pub verify_and_store : PolicyFetchResponse → ℕ → State Disk → State Disk × Bool
  unfolding reply post_persist_policy
  verify_and_store policy completion s =
      let stored = record s { store = PolicyStore.set s.store policy } in
      if PolicyKey.verify lib s.key (string_of policy.policy_data)
        (string_of policy.policy_data_signature)
      then (post_persist_policy stored (some completion), true)
      else (reply s (failure completion signature_error), false)

  unfoldable pub after_install :
      PolicyFetchResponse → ℕ → State Disk → PolicyKey × Bool → State Disk × Bool
  unfolding verify_and_store post_persist_key
  after_install policy completion s (k, true) =
      verify_and_store policy completion (post_persist_key (record s { key = k }))
  after_install policy completion s (k, false) =
      (reply (record s { key = k }) (failure completion install_error), false)

  unfoldable pub store_policy :
      PolicyFetchResponse → ℕ → ℕ → State Disk → Outcome (State Disk × Bool)
  store_policy policy completion flags s =
      let der = blob_from_buffer (string_of policy.new_public_key) in
      let with_new_key = install_key lib flags s.key policy der >>= λ r.
      done (after_install policy completion s r) in
      if has_other_key beyond s.key policy
      then with_new_key
      else done (verify_and_store policy completion s)

  unfoldable pub store : Codec → Text → ℕ → ℕ → State Disk → Outcome (State Disk × Bool)
  store c blob completion flags s =
      let (policy, parsed) = c.parse_response blob in
      if parsed && (is_some policy.policy_data && is_some policy.policy_data_signature)
      then store_policy policy completion flags s
      else done (reply s (failure completion parse_error), false)

module _ {Disk : Type 0} (c : Codec) where
  -- The bytes, and whether their number is the announced one.
  unfoldable pub retrieve : State Disk → Text × Bool
  retrieve s =
      let blob = c.serialize_to_array s.store.policy in
      (blob, length blob == c.byte_size s.store.policy)

module _ {Disk : Type 0} where
  unfoldable pub on_key_persisted : State Disk → Bool → State Disk
  unfolding notify
  on_key_persisted s status = notify s (key_persisted status)

  unfoldable pub complete : State Disk → Option ℕ → Bool → State Disk
  unfolding reply
  complete s none status = s
  complete s (some completion) true = reply s (success completion)
  complete s (some completion) false = reply s (failure completion persist_error)

  unfoldable pub on_policy_persisted : State Disk → Option ℕ → Bool → State Disk
  unfolding complete notify
  on_policy_persisted s completion status =
      notify (complete s completion status) (policy_persisted status)

module _ {Disk : Type 0} (fs : FileSystem Disk) (c : Codec) where
  unfoldable pub persist_policy_on_loop : State Disk → Option ℕ → State Disk
  persist_policy_on_loop s completion =
      let (d, status) = PolicyStore.persist fs c s.store s.disk in
      on_policy_persisted (record s { disk = d }) completion status

  unfoldable pub persist_policy_sync : State Disk → State Disk × Bool
  persist_policy_sync s =
      let (d, status) = PolicyStore.persist fs c s.store s.disk in
      (on_policy_persisted (record s { disk = d }) none status, status)

  unfoldable pub persist_key_on_loop : State Disk → Outcome (State Disk)
  persist_key_on_loop s = do
    (d, status) ← PolicyKey.persist fs s.key s.disk
    done (on_key_persisted (record s { disk = d }) status)

  unfoldable pub run_task : State Disk → Task → Outcome (State Disk)
  run_task s persist_key = persist_key_on_loop s
  run_task s (persist_policy completion) = done (persist_policy_on_loop s completion)

  -- The message loop over tasks that are taken off in order.
  unfoldable pub run_tasks : State Disk → List Task → Outcome (State Disk)
  run_tasks s [] = done s
  run_tasks s (t ∷ ts) = run_task s t >>= λ s'. run_tasks s' ts
