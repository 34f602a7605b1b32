-- ===== src/DbusCalls.antt =====
-- scoped_dbus_pending_call.h, scoped_dbus_pending_call.cc, and the method calls to other services of
-- system_utils.cc, with what they ask of the D-Bus library. A pending call is known by its pointer.
pub mod Pinger
pub mod Tally
pub mod Follows
pub mod Handles
pub mod Examples
use chromiumos_platform_logi.Prelude.{
  ℕ, ◌+◌, ◌%◌, ◌^◌, ◌≡◌, Bool, true, false, Option, none, some, List, [], ◌∷◌, ◌++◌, Text,
  if◌then◌else◌, Outcome, done, died,
}

-- What is asked of the library.
pub data BusAction : Type 0 where
  message_made message_unreffed : BusAction  -- a new message, or a reply that was stolen
  call_made call_cancelled call_unreffed : ℕ → BusAction
  error_freed : BusAction
  method_called : Text → Text → Text → Text → BusAction

pub record ScopedDbusPendingCall : Type 0 where
  pub call : Option ℕ  -- `none` for NULL
  pub skip_unref_for_test : Bool

unfoldable pub create : Option ℕ → ScopedDbusPendingCall
create call = record { call = call; skip_unref_for_test = false }

-- The counter afterwards, and a pointer that is made up out of it.
unfoldable pub create_for_testing : ℕ → ℕ × ScopedDbusPendingCall
create_for_testing test_instance_counter = (
  test_instance_counter + 1,
  record {
    call = some ((0xbeefcafe + (test_instance_counter + 1)) % 2 ^ 32);
    skip_unref_for_test = true;
  },
)

unfoldable pub unref : Option ℕ → Bool → List BusAction
unref none skip = []
unref (some p) true = []
unref (some p) false = call_unreffed p ∷ []

unfoldable pub unref_and_clear : ScopedDbusPendingCall → ScopedDbusPendingCall × List BusAction
unfolding unref
unref_and_clear s = (record s { call = none }, unref s.call s.skip_unref_for_test)

-- How `dbus_connection_send_with_reply` ends: without memory, on a connection that is closed, or with
-- a pending call.
pub data Sending : Type 0 where
  out_of_memory disconnected : Sending
  pending_call : ℕ → Sending

unfoldable pub call_async_method_on_chromium :
    Sending → Outcome (ScopedDbusPendingCall × List BusAction)
unfolding create
call_async_method_on_chromium out_of_memory = died
call_async_method_on_chromium disconnected =
    done (create none, message_made ∷ message_unreffed ∷ [])
call_async_method_on_chromium (pending_call p) =
    done (create (some p), message_made ∷ call_made p ∷ message_unreffed ∷ [])

-- A reply by its type: a method return, an error, or another.
pub data Reply : Type 0 where
  method_return error_message other_type : Reply

unfoldable pub cancel_async_method_call : Option ℕ → Outcome (List BusAction)
cancel_async_method_call none = died
cancel_async_method_call (some p) = done (call_cancelled p ∷ [])

-- The DCHECK of a pointer that is not NULL counts as a CHECK here.
unfoldable pub check_async_method_success :
    Option Reply → Option ℕ → Outcome (Bool × List BusAction)
check_async_method_success reply none = died
check_async_method_success none (some p) = done (false, call_cancelled p ∷ [])
check_async_method_success (some method_return) (some p) =
    done (true, message_made ∷ message_unreffed ∷ [])
check_async_method_success (some error_message) (some p) =
    done (false, message_made ∷ error_freed ∷ message_unreffed ∷ [])
check_async_method_success (some other_type) (some p) =
    done (false, message_made ∷ message_unreffed ∷ [])

-- `proxy` tells whether the proxy could be made.
unfoldable pub call_method_on : Bool → Text → Text → Text → Text → List BusAction
call_method_on proxy destination path interface method_name =
    if proxy then method_called destination path interface method_name ∷ [] else []
