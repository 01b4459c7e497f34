-- ===== src/ClientAuth/Authenticate.antt =====
-- internal/clientauth/clientauth.go: `Authenticate`, and the requests of one connection.
use px_go.Prelude.{Bool, true, false, not, ◌||◌, List, [], ◌∷◌, Option, none, some, if◌then◌else◌}
use px_go.Strings.{Bytes, text, equal, is_empty, trim_space, to_upper, cut}
use px_go.ClientAuth.{State, Handler, Env, Request, enabled, challenge}
use px_go.ClientAuth.Verify.{Verdict, verify_basic, verify_digest, verify_ntlm, verify_negotiate}

-- `ok`, the values of Proxy-Authenticate, and whether there is an error.
pub record Reply : Type 0 where
  pub ok : Bool
  pub challenges : List Bytes
  pub err : Bool

abbrev pub passes : Reply
passes = record { ok = true; challenges = []; err = false }

abbrev pub or_empty : Option Bytes → Bytes
or_empty none = []
or_empty (some rest) = rest

-- The scheme and the payload of the header.
unfoldable pub scheme_of : Bytes → Bytes
unfolding to_upper trim_space cut
scheme_of value = to_upper (trim_space (cut b' ' value).0)

unfoldable pub payload_of : Bytes → Bytes
unfolding trim_space cut
payload_of value = trim_space (or_empty (cut b' ' value).1)

module _ {N S : Type 0} where
  -- The last line of `Authenticate`
  unfoldable pub refuse : Env N S → Handler → Request → State N S → State N S × Reply
  unfolding challenge
  refuse env h q s =
      let (after, values) = challenge env h q.remote_addr s in
      (after, record { ok = false; challenges = values; err = false })

  -- The cases BASIC and DIGEST
  unfoldable pub conclude : Env N S → Handler → Request → State N S → Bool → State N S × Reply
  conclude env h q s ok = if ok then (record s { authed = true }, passes) else refuse env h q s

  -- The cases NTLM and NEGOTIATE, with the state that the check leaves.
  unfoldable pub conclude_verdict :
      Env N S → Handler → Request → State N S → Verdict → State N S × Reply
  conclude_verdict env h q s v =
      if v.ok
      then (record s { authed = true }, passes)
      else if not (is_empty v.header)
      then (s, record { ok = false; challenges = v.header ∷ []; err = v.err })
      else refuse env h q s

  unfoldable pub conclude_pair :
      Env N S → Handler → Request → State N S × Verdict → State N S × Reply
  unfolding conclude_verdict
  conclude_pair env h q p = conclude_verdict env h q p.0 p.1

  -- The `switch` of `Authenticate`
  unfoldable pub authenticate_with :
      Env N S → Handler → Request → State N S → Bytes → Bytes → State N S × Reply
  unfolding equal
  authenticate_with env h q s scheme payload =
      if equal scheme (text "BASIC")
      then conclude env h q s (verify_basic env h payload)
      else if equal scheme (text "DIGEST")
      then conclude env h q s (verify_digest env h q.digest s q.authorization)
      else if equal scheme (text "NTLM")
      then conclude_pair env h q (verify_ntlm env h payload s)
      else if equal scheme (text "NEGOTIATE")
      then conclude_pair env h q (verify_negotiate env h payload s)
      else refuse env h q s

  unfoldable pub authenticate : Env N S → Handler → Request → State N S → State N S × Reply
  authenticate env h q s =
      if not (enabled h) || s.authed
      then (s, passes)
      else if is_empty q.authorization
      then refuse env h q s
      else authenticate_with env h q s (scheme_of q.authorization) (payload_of q.authorization)

  -- The state after the requests of one connection, each with its environment.
  unfoldable pub authenticate_all : Handler → List (Env N S × Request) → State N S → State N S
  authenticate_all h [] s = s
  authenticate_all h ((env, q) ∷ qs) s = authenticate_all h qs (authenticate env h q s).0
