-- ===== src/DevicePolicyService/Flags.antt =====
-- The start-up flags that device_policy_service.cc hands to the browser.
use chromiumos_platform_logi.Prelude.{
  ◌≡◌, refl, inl, inr, Bool, true, false, not, ◌&&◌, List, [], ◌∷◌, all, Text, arith, Bool-cases,
  text_eq,
}
use chromiumos_platform_logi.DevicePolicyService.StartUpFlags.{
  is_blank, prefixed, start_up_args, starts_with_dash,
}

-- A switch: it begins with a dash and names something.
abbrev pub is_switch : Text → Bool
is_switch f = starts_with_dash f && not (is_blank f)

prefixed_switch : (f : Text) → is_blank f ≡ false → is_switch (prefixed f) ≡ true
unfolding is_blank prefixed text_eq
prefixed_switch [] h = cc
prefixed_switch (a ∷ []) h = ground arith
prefixed_switch (a ∷ b ∷ []) h = ground arith
prefixed_switch (a ∷ b ∷ e ∷ rest) h = ground arith

prefixed_again : (f : Text) → is_switch f ≡ true → prefixed f ≡ f
unfolding is_blank prefixed text_eq
prefixed_again [] h = cc
prefixed_again (a ∷ []) h = ground arith
prefixed_again (a ∷ b ∷ rest) h = ground arith

-- Whatever the policy lists, every flag that is passed on is a switch, and flags that are switches
-- already are passed on as they are.
pub start_up_args_lem :
    (flags : List Text)
    → (all is_switch (start_up_args flags) ≡ true)
      × (start_up_args (start_up_args flags) ≡ start_up_args flags)
unfolding start_up_args all
start_up_args_lem [] = (refl, refl)
start_up_args_lem (f ∷ flags) = elim (Bool-cases (is_blank f)) [
  | inl blank ↦ rw blank (start_up_args_lem flags)
  | inr named ↦
      ground (arith, start_up_args_lem flags, prefixed_switch f named, prefixed_again (prefixed f))
]
