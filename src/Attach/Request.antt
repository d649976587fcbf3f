-- ===== src/Attach/Request.antt =====
-- internal/attach/protocol.go: encodeRequest, jcmdRequest and loadAgentRequest. `none` is an error.
use apm2go.Base.{
  ℕ, zero, suc, List, [], ◌∷◌, ◌++◌, Bool, true, false, if◌then◌else◌, ltb, length, any, is_empty,
  some_injective, Option, none, some, ◌≡◌, refl, ap, sym, ◌∙◌, arith,
}
use apm2go.Base.Eq.{Bytes, codes}
use apm2go.Base.Text.{has_byte, split, split-append, trim_space}

abbrev pub protocol_version : Bytes
protocol_version = codes "1"

-- The loop that writes the arguments that are left to write.
unfoldable pub put_args : ℕ → List Bytes → Bytes
put_args zero args = []
put_args (suc left) [] = 0 ∷ put_args left []
put_args (suc left) (a ∷ args) = a ++ (0 ∷ put_args left args)

unfoldable pub encode_request : Bytes → List Bytes → Option Bytes
encode_request command args =
    if ltb 3 (length args)
    then none
    else if any (has_byte 0) args
    then none
    else some (protocol_version ++ (0 ∷ (command ++ (0 ∷ put_args 3 args))))

unfoldable pub jcmd_request : Bytes → Option Bytes
jcmd_request command =
    if is_empty (trim_space command) then none else encode_request (codes "jcmd") (command ∷ [])

unfoldable pub load_agent_request : Bytes → Bytes → Option Bytes
load_agent_request jar_path agent_options =
    let options =
      if is_empty agent_options then jar_path else jar_path ++ (codes "=" ++ agent_options) in
    encode_request (codes "load") (codes "instrument" ∷ codes "false" ∷ options ∷ [])

-- The three arguments that the listener reads: those given, then empty ones.
abbrev pub padded : ℕ → List Bytes → List Bytes
padded zero args = []
padded (suc left) [] = [] ∷ padded left []
padded (suc left) (a ∷ args) = a ∷ padded left args

split-put_args :
    (left : ℕ) (args : List Bytes)
    → any (has_byte 0) args ≡ false
    → split 0 (put_args left args) ≡ padded left args ++ ([] ∷ [])
unfolding put_args split
split-put_args zero args h = refl
split-put_args (suc left) [] h = ap (λ ps. [] ∷ ps) (split-put_args left [] h)
split-put_args (suc left) (a ∷ args) h =
    split-append 0 a (put_args left args) (ground (arith, h))
    ∙ ap (λ ps. a ∷ ps) (split-put_args left args (ground (arith, h)))

-- A request that is encoded is read back by its NUL bytes as exactly the version, the command and
-- three arguments, those given first and empty ones behind them: no argument moves the framing. The
-- condition is that the command, which is a constant of the program, holds no NUL byte.
pub split-encode_request :
    (command : Bytes) (args : List Bytes) (frame : Bytes)
    → has_byte 0 command ≡ false
    → encode_request command args ≡ some frame
    → split 0 frame ≡ protocol_version ∷ command ∷ (padded 3 args ++ ([] ∷ []))
unfolding encode_request has_byte
split-encode_request command args frame h e =
    go (ltb 3 (length args)) (any (has_byte 0) args) refl e
  where
    go :
        (long nul : Bool)
        → any (has_byte 0) args ≡ nul
        → (if long
            then none
            else if nul
            then none
            else some (protocol_version ++ (0 ∷ (command ++ (0 ∷ put_args 3 args)))))
          ≡ some frame
        → split 0 frame ≡ protocol_version ∷ command ∷ (padded 3 args ++ ([] ∷ []))
    go true nul n f = cc
    go false true n f = cc
    go false false n f =
        ap (split 0) (sym (some_injective _ frame f))
        ∙ split-append 0 protocol_version (command ++ (0 ∷ put_args 3 args)) refl
        ∙ ap (λ ps. protocol_version ∷ ps) (split-append 0 command (put_args 3 args) h)
        ∙ ap (λ ps. protocol_version ∷ command ∷ ps) (split-put_args 3 args n)
