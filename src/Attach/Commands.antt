-- ===== src/Attach/Commands.antt =====
-- internal/attach/attach.go: JCmd, jcmdBodyError and Properties, on the reply that the exchange gives;
-- and LoadAgent and canDropTo of internal/attach/runner.go. The texts of errors are left out.
use apm2go.Base.{List, [], ◌∷◌, Bool, not, any, if◌then◌else◌, is_empty, Option, none, some}
use apm2go.Base.Eq.{◌=?◌, Bytes, codes}
use apm2go.Base.Int.{ℤ, pos, ltb_ℤ, ℤ_eq}
use apm2go.Base.Dict.{Dict}
use apm2go.Base.Text.{has_prefix, trim_space}
use apm2go.Attach.Request.{encode_request, jcmd_request}
use apm2go.Attach.Reply.{
  Response, ok, is_zero, Decoded, decoded, empty_response, malformed_response,
}
use apm2go.Attach.Properties.{parse_properties}

abbrev pub refusal_markers : List Bytes
refusal_markers =
    codes "Unknown diagnostic command"
    ∷ codes "java.lang.IllegalArgumentException"
    ∷ codes "Invalid argument"
    ∷ []

-- Whether the body is that of a refusal.
unfoldable pub is_refusal : Bytes → Bool
is_refusal body = any (has_prefix (trim_space body)) refusal_markers

pub data Ran : Type 0 where
  invalid_pid : Ran
  bad_request : Ran
  bad_reply : Ran
  rejected : Ran
  refused_command : Ran
  cut_off : Bytes → Ran
  output : Bytes → Ran

abbrev pub judge : Response → Ran
judge r =
    if not (is_zero r.code)
    then rejected
    else if is_refusal r.body
    then refused_command
    else if r.truncated
    then cut_off r.body
    else output r.body

abbrev pub judge_reply : Decoded → Ran
judge_reply (decoded r) = judge r
judge_reply empty_response = bad_reply
judge_reply malformed_response = bad_reply

-- What the exchange answers to the request is an argument.
unfoldable pub jcmd : (Bytes → Decoded) → ℤ → Bytes → Ran
jcmd execute pid command =
    if not (ltb_ℤ (pos 0) pid) then invalid_pid else elim (jcmd_request command) [
      | none ↦ bad_request
      | some request ↦ judge_reply (execute request)
    ]

abbrev pub properties_in : Decoded → Option (Dict Bytes Bytes)
properties_in (decoded r) = if ok r then some (parse_properties r.body) else none
properties_in empty_response = none
properties_in malformed_response = none

unfoldable pub read_properties : (Bytes → Decoded) → ℤ → Option (Dict Bytes Bytes)
read_properties execute pid =
    if not (ltb_ℤ (pos 0) pid) then none else elim (encode_request (codes "properties") []) [
      | none ↦ none
      | some request ↦ properties_in (execute request)
    ]

-- How a runner attaches: itself, by the helper, or not at all.
pub data AttachRoute : Type 0 where
  directly by_helper cannot_drop no_helper : AttachRoute

unfoldable pub attach_route : ℤ → ℤ → Bytes → AttachRoute
attach_route euid target_uid helper_path =
    if euid =? target_uid
    then directly
    else if not (euid =? pos 0)
    then cannot_drop
    else if is_empty helper_path
    then no_helper
    else by_helper
