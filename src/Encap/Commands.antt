-- ===== src/Encap/Commands.antt =====
-- registerSession(), handleReceivedListServicesCommand(), handleReceivedListInterfacesCommand() and
-- determineDelayTimeMSecs() of enet_encap/encap.cc.
pub mod Laws
use cipster.Base.{
  ℕ, ◌+◌, ◌*◌, ◌/◌, ◌%◌, ◌^◌, ◌==◌, ltb, leb, List, [], ◌∷◌, Bool, true, false, not, ◌&&◌, Option,
  none, some, if◌then◌else◌, Result, ok, throws, ◌>>=◌,
}
use cipster.Bytes.Writer.{Writer, put16, append}
use cipster.Bytes.Reader.{Reader, get16}
use cipster.Encap.Header.{catch_runtime}
use cipster.Encap.Session.{Sessions, EncapError, unsupported_protocol, register_session, Reply}

-- kSupportedProtocolVersion.
abbrev pub supported_version : ℕ
supported_version = 1

unfoldable pub get_request : Reader → Result (ℕ × ℕ)
unfolding get16
get_request command = do
  (version, r₁) ← get16 command
  (options, r₂) ← get16 r₁
  ok (version, options)

-- The session that a supported request registers. `*aSessionHandleResult` is 0 where none is stored.
unfoldable pub answer : ℕ → ℕ → ℕ → Sessions → Reply
unfolding register_session
answer sock version options m =
    if not (version == 0) && (leb version supported_version && (options == 0))
    then register_session sock m
    else (unsupported_protocol, none, m)

unfoldable pub put_answer : ℕ → ℕ → Writer → Result Writer
unfolding put16
put_answer version options w = do
  w₁ ← put16 (if ltb supported_version version then supported_version else version) w
  put16 options w₁

-- registerSession(): `none` is the result -1, for a request that is too short. The table is the one
-- that SessionMgr::RegisterSession() leaves; it is left also where the reply overruns its buffer.
unfoldable pub register_command :
    ℕ → Reader → Writer → Sessions → Result (Option (Reply × Result Writer))
unfolding get_request answer put_answer
register_command sock command reply m = do
  request ← catch_runtime (get_request command)
  elim request [
    | none ↦ ok none
    | some (version, options) ↦
        ok (some (answer sock version options m, put_answer version options reply))
  ]

-- kCpfIdListServiceResponse and the two capability flags.
abbrev list_service_response : ℕ
list_service_response = 0x100

abbrev capability_flags : ℕ
capability_flags = 0x120

-- "Communications" in 16 bytes.
abbrev pub name_of_service : List ℕ
name_of_service =
    67 ∷ 111 ∷ 109 ∷ 109 ∷ 117 ∷ 110 ∷ 105 ∷ 99 ∷ 97 ∷ 116 ∷ 105 ∷ 111 ∷ 110 ∷ 115 ∷ 0 ∷ 0 ∷ []

unfoldable pub put_services : Writer → Result Writer
unfolding put16 append
put_services w = do
  w₁ ← put16 1 w
  w₂ ← put16 list_service_response w₁
  w₃ ← put16 20 w₂
  w₄ ← put16 1 w₃
  w₅ ← put16 capability_flags w₄
  append name_of_service w₅

-- handleReceivedListServicesCommand(): `none` is -1.
unfoldable pub list_services : Writer → Result (Option Writer)
unfolding put_services
list_services reply = catch_runtime (put_services reply)

-- handleReceivedListInterfacesCommand().
unfoldable pub list_interfaces : Writer → Result Writer
unfolding put16
list_interfaces reply = put16 0 reply

-- determineDelayTimeMSecs(): `random` is what rand() returns, at most `rand_max`.
abbrev pub max_delay : ℕ → ℕ
max_delay msecs = if msecs == 0 then 2000 else if ltb msecs 500 then 500 else msecs

unfoldable pub delay_msecs : ℕ → ℕ → ℕ → ℕ
delay_msecs rand_max random msecs = max_delay msecs * random % 2 ^ 64 / rand_max % 2 ^ 32
