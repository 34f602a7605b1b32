-- ===== src/UpstartSignalEmitter/Shell.antt =====
-- What the shell reads of the command that a start of a session runs.
use chromiumos_platform_logi.Prelude.{
  ℕ, ◌≡◌, refl, ◌⊎◌, inl, inr, Bool, true, false, not, ◌&&◌, List, [], ◌∷◌, ◌++◌, is_some, any, all,
  Text, codes, ◌==◌, if◌then◌else◌, arith,
}
use chromiumos_platform_logi.ChildJob.{c_string}
use chromiumos_platform_logi.UpstartSignalEmitter.{command}
use chromiumos_platform_logi.PolicyService.{ErrorCode, invalid_email, session_exists}
use chromiumos_platform_logi.DevicePolicyService.{OwnerLogin, check_and_handle_owner_login}
use chromiumos_platform_logi.SessionManager.{
  Env, Effect, upstart_signal, UserSession, Manager, Answer, find, refuse, with_disk, disk_of,
}
use chromiumos_platform_logi.SessionManager.Strings.{validate_email, is_legal_character}
use chromiumos_platform_logi.SessionManager.Sessions.{
  Answers, Created, made, not_made, create_user_session, user_name, is_incognito_name,
  enter_session, login, login_checked, start_created, start_session,
}

-- The characters by which sh does more than take them, but for the blanks between words.
abbrev pub special_characters : List ℕ
special_characters =
    0 ∷ 9 ∷ 10 ∷ b'!' ∷ 34 ∷ b'#' ∷ b'$' ∷ b'&' ∷ 39 ∷ b'(' ∷ b')' ∷ b'*' ∷ b';' ∷ b'<' ∷ b'>'
    ∷ b'?' ∷ b'[' ∷ 92 ∷ b'`' ∷ b'{' ∷ b'|' ∷ b'}' ∷ b'~' ∷ []

abbrev pub is_special : ℕ → Bool
is_special ch = any (λ c. ch == c) special_characters

abbrev pub blank : ℕ
blank = b' '

abbrev pub with_first : ℕ → List Text → List Text
with_first c [] = (c ∷ []) ∷ []
with_first c (w ∷ ws) = (c ∷ w) ∷ ws

-- The words of a command that are parted by single blanks.
unfoldable pub words : Text → List Text
words [] = [] ∷ []
words (c ∷ cs) = let rest = words cs in if c == blank then [] ∷ rest else with_first c rest

-- The commands that the effects of a call have the shell run.
unfoldable pub shell_commands : List Effect → List Text
shell_commands [] = []
shell_commands (upstart_signal name args ∷ es) = command name args ∷ shell_commands es
shell_commands (_ ∷ es) = shell_commands es

legal_nonzero : (ch : ℕ) → is_legal_character ch ≡ true → (ch == 0) ≡ false
unfolding is_legal_character
legal_nonzero ch h = ground arith

legal_plain :
    (ch : ℕ) → is_legal_character ch ≡ true → (is_special ch ≡ false) × ((ch == blank) ≡ false)
unfolding is_legal_character any
legal_plain ch h = ground arith

words_plain : (text : Text) → all is_legal_character text ≡ true → words text ≡ text ∷ []
unfolding all words
words_plain [] h = refl
words_plain (c ∷ cs) h = ground (arith, legal_plain c, words_plain cs)

c_string_plain : (text : Text) → all is_legal_character text ≡ true → c_string text ≡ text
unfolding all c_string
c_string_plain [] h = refl
c_string_plain (c ∷ cs) h = ground (arith, legal_nonzero c, c_string_plain cs)

any_plain : (text : Text) → all is_legal_character text ≡ true → any is_special text ≡ false
unfolding all any
any_plain [] h = refl
any_plain (c ∷ cs) h = ground (arith, legal_plain c, any_plain cs)

abbrev pub start_command : Text → Text
start_command email = command (codes "start-user-session") (codes "CHROMEOS_USER=" ++ email)

-- The command is four words, of which the last has the name, and holds nothing special.
abbrev pub IsStartOf : Text → Text → Type 0
IsStartOf email cmd =
    (any is_special cmd ≡ false)
    × (words cmd
        ≡ codes "/sbin/initctl"
          ∷ codes "emit"
          ∷ codes "start-user-session"
          ∷ (codes "CHROMEOS_USER=" ++ email)
          ∷ [])

valid_legal : (email : Text) → validate_email email ≡ true → all is_legal_character email ≡ true
unfolding validate_email
valid_legal email h = ground arith

start_command-IsStartOf :
    (email : Text) → validate_email email ≡ true → IsStartOf email (start_command email)
unfolding command c_string words any
start_command-IsStartOf email h =
    let legal = valid_legal email h in
    (
      rw (c_string_plain email legal) (any_plain email legal),
      rw (c_string_plain email legal) (rw (words_plain email legal) refl),
    )

module _ {Disk : Type 0} (env : Env Disk) where
  -- What a call that has asked for nothing yet has the shell run.
  abbrev Runs : Text → Answer Disk → Type 0
  Runs email answer =
      (shell_commands answer.manager.effects ≡ start_command email ∷ [])
      ⊎ ((shell_commands answer.manager.effects ≡ []) × (answer.success ≡ false))

  login_checked-Runs :
      (a : Answers) (email : Text) (b : Bool) (s : UserSession) (o : OwnerLogin Disk)
      (m : Manager Disk)
      → m.effects ≡ []
      → Runs email (login_checked env a email b s o m)
  unfolding login_checked enter_session shell_commands
  login_checked-Runs a email b s o m nothing_yet = ground arith

  login-Runs :
      (a : Answers) (email : Text) (b : Bool) (s : UserSession) (m : Manager Disk)
      → m.effects ≡ []
      → Runs email (login env a email b s m)
  unfolding login
  login-Runs a email b s m nothing_yet =
      login_checked-Runs a email b s
        (check_and_handle_owner_login env.lib env.beyond env.codec a.mitigate s.username s.slot
          m.device_policy)
        m nothing_yet

  refuse-Runs :
      (email : Text) (m : Manager Disk) (code : ErrorCode)
      → m.effects ≡ []
      → Runs email (refuse m code)
  unfolding shell_commands
  refuse-Runs email m code nothing_yet = ground arith

  created-Runs :
      (a : Answers) (email : Text) (b : Bool) (m : Manager Disk) (d : Disk) (c : Created)
      → m.effects ≡ []
      → let answer : Answer Disk = elim c [
        | not_made e ↦ refuse (with_disk m d) e
        | made session ↦ login env a email b session (with_disk m d)
      ] in
        Runs email answer
  created-Runs a email b m d (not_made e) nothing_yet =
      refuse-Runs email (with_disk m d) e nothing_yet
  created-Runs a email b m d (made s) nothing_yet =
      login-Runs a email b s (with_disk m d) nothing_yet

  start_created-Runs :
      (a : Answers) (email : Text) (b : Bool) (m : Manager Disk)
      → m.effects ≡ []
      → Runs email (start_created env a email b m)
  unfolding start_created
  start_created-Runs a email b m nothing_yet =
      let r = create_user_session env email b (disk_of m) in
      created-Runs a email b m r.0 r.1 nothing_yet

  if-Runs :
      (email : Text) (b : Bool) (r r' : Answer Disk)
      → Runs email r
      → Runs email r'
      → Runs email (if b then r else r')
  if-Runs email true r r' h h' = h
  if-Runs email false r r' h h' = h'

  start_session-Runs :
      (a : Answers) (email_address : Text) (m : Manager Disk)
      → m.effects ≡ []
      → Runs (user_name a email_address) (start_session env a email_address m)
  unfolding start_session
  start_session-Runs a email_address m nothing_yet =
      let email = user_name a email_address in
      if-Runs email (not (is_incognito_name env email) && not (validate_email email)) _ _
        (refuse-Runs email m invalid_email nothing_yet)
        (if-Runs email (is_some (find email m.user_sessions)) _ _
          (refuse-Runs email m session_exists nothing_yet)
          (start_created-Runs a email (is_incognito_name env email) m nothing_yet))

  validated :
      (a : Answers) (email_address : Text) (m : Manager Disk)
      → is_incognito_name env (user_name a email_address) ≡ false
      → (validate_email (user_name a email_address) ≡ true)
        ⊎ (start_session env a email_address m ≡ refuse m invalid_email)
  unfolding start_session
  validated a email_address m named = ground arith

  -- A StartSession for a name that is not one of the incognito ones, which has asked for nothing yet,
  -- has the shell run at most one command, and one if it succeeds: the four words of `initctl`, `emit`,
  -- the signal and the user's name, with no character in them that the shell does more than take.
  pub start_session-shell_commands :
      (a : Answers) (email_address : Text) (m : Manager Disk)
      → m.effects ≡ []
      → is_incognito_name env (user_name a email_address) ≡ false
      → let answer = start_session env a email_address m in
        let email = user_name a email_address in
        ((cmd : Text) × (shell_commands answer.manager.effects ≡ cmd ∷ []) × IsStartOf email cmd)
        ⊎ ((shell_commands answer.manager.effects ≡ []) × (answer.success ≡ false))
  unfolding shell_commands
  start_session-shell_commands a email_address m nothing_yet named =
      let email = user_name a email_address in
      elim (validated a email_address m named) [
        | inl valid ↦ elim (start_session-Runs a email_address m nothing_yet) [
          | inl e ↦ inl (start_command email, e, start_command-IsStartOf email valid)
          | inr quiet ↦ inr quiet
        ]
        | inr refused ↦ inr (rw refused (rw nothing_yet (refl, refl)))
      ]
