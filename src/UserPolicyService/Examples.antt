-- ===== src/UserPolicyService/Examples.antt =====
-- A user whose policy says that the user is not managed any more.
use chromiumos_platform_logi.Prelude.{
  ◌≡◌, ◌⊎◌, refl, true, false, some, none, is_some, [], ◌∷◌, Text, codes, done,
}
use chromiumos_platform_logi.Platform.SampleDisk.{SampleDisk}
use chromiumos_platform_logi.Platform.SampleCodec.{sample_codec}
use chromiumos_platform_logi.Platform.Messages.{PolicyFetchResponse, PolicyData, empty_policy_data}
use chromiumos_platform_logi.PolicyService.{State, persist_key, persist_policy}
use chromiumos_platform_logi.PolicyService.Storing.{Accepted}
use chromiumos_platform_logi.UserPolicyService.{store}
use chromiumos_platform_logi.UserPolicyService.Unmanaged.{Released, user_store-Accepted}
use chromiumos_platform_logi.Samples.{sample_lib, sample_beyond, owner_key, sample_state}

abbrev free : PolicyData
free = record empty_policy_data { unmanaged = true }

abbrev release : PolicyFetchResponse
release = record {
  policy_data = some (sample_codec.serialize_policy_data free);
  policy_data_signature = none;
  new_public_key = none;
  new_public_key_signature = none;
  other = [];
}

abbrev release_blob : Text
release_blob = sample_codec.serialize_to_array release

abbrev released : State SampleDisk
released = record sample_state {
  key = record owner_key { key = []; have_replaced = true };
  store = record { policy_path = codes "/policy"; policy = release };
  posted = persist_key ∷ persist_policy (some 1) ∷ [];
}

store_releases :
    store sample_lib sample_beyond sample_codec release_blob 1 3 sample_state
    ≡ done (released, true)
unfolding store chromiumos_platform_logi.UserPolicyService.store_unmanaged
    chromiumos_platform_logi.UserPolicyService.clear_key
    chromiumos_platform_logi.PolicyKey.is_populated
    chromiumos_platform_logi.PolicyKey.clobber_compromised_key
    chromiumos_platform_logi.PolicyService.post_persist_policy
    chromiumos_platform_logi.PolicyService.post_persist_key chromiumos_platform_logi.PolicyStore.set
store_releases = refl

user_store-Accepted_example :
    (true ≡ true)
    × (is_some release.policy_data ≡ true)
    × (((free.unmanaged ≡ true)
          × (is_some release.policy_data_signature ≡ false)
          × Released release 1 sample_state released)
        ⊎ Accepted sample_lib sample_beyond release 1 3 sample_state released)
user_store-Accepted_example =
    user_store-Accepted sample_lib sample_beyond sample_codec release_blob 1 3 sample_state released
      store_releases
