-- ===== src/Encap/Commands/Laws.antt =====
-- What the commands of the encapsulation layer answer.
use cipster.Base.{
  ℕ, ◌+◌, ◌*◌, ◌/◌, ◌%◌, ◌^◌, ◌<◌, ◌≤◌, ◌≡◌, refl, ap, ◌∙◌, arith, ◌==◌, ltb, List, [], ◌∷◌, ◌++◌,
  none, some, if◌then◌else◌, length, ok,
}
use native.Mathlib.Nat.{mod-le, div-le_of_le-mul}
use cipster.Bytes.Writer.{Writer, capacity, store, le16, append}
use cipster.Bytes.Reader.{Reader}
use cipster.Bytes.Append.{Puts, chain, put16-append, Puts-append, append_fits, append_overruns}
use cipster.Encap.Session.{Sessions, unsupported_protocol, register_session}
use cipster.Encap.Commands.{
  answer, put_answer, register_command, put_services, list_services, name_of_service, max_delay,
  delay_msecs,
}

word : (v : ℕ) → v < 2 ^ 16 → v % 256 + v / 256 % 256 * 256 ≡ v
word v h = omega arith

request_short :
    (sock : ℕ) (short : Reader) (reply : Writer) (m : Sessions)
    → length short < 4
    → register_command sock short reply m ≡ ok none
unfolding register_command
request_short sock [] reply m h = refl
request_short sock (a ∷ []) reply m h = refl
request_short sock (a ∷ b ∷ []) reply m h = refl
request_short sock (a ∷ b ∷ c ∷ []) reply m h = refl
request_short sock (a ∷ b ∷ c ∷ d ∷ r) reply m h = absurd (omega arith)

put_answer-append :
    (version options : ℕ)
    → Puts
        (put_answer version options)
        (le16 (if ltb 1 version then 1 else version) ++ le16 options)
unfolding put_answer
put_answer-append version options =
    chain (put16-append (if ltb 1 version then 1 else version)) (put16-append options)

clamped : (version : ℕ) → (if ltb 1 version then 1 else version) ≡ (if version == 0 then 0 else 1)
clamped version = ground arith

put_answer_lem :
    (version options : ℕ) (reply : Writer)
    → put_answer version options reply
      ≡ append (le16 (if version == 0 then 0 else 1) ++ le16 options) reply
put_answer_lem version options reply =
    (put_answer-append version options).puts reply
    ∙ ap (λ v. append (le16 v ++ le16 options) reply) (clamped version)

-- A RegisterSession request for a version and options, in any room for the reply: the reply is the
-- version, at most 1, and the options, if they fit. The session manager is asked for version 1 without
-- options; any other request is answered that the protocol is not supported, and leaves it as it was.
-- A request of fewer than 4 bytes has no reply.
pub register_command_lem :
    (sock version options : ℕ) (r : Reader) (reply : Writer) (m : Sessions)
    → version < 2 ^ 16
    → options < 2 ^ 16
    → (register_command sock (le16 version ++ (le16 options ++ r)) reply m
        ≡ ok (
            some (
              answer sock version options m,
              append (le16 (if version == 0 then 0 else 1) ++ le16 options) reply,
            )))
      × (version ≡ 1 → options ≡ 0 → answer sock version options m ≡ register_session sock m)
      × (¬ ((version ≡ 1) × (options ≡ 0))
          → answer sock version options m ≡ (unsupported_protocol, none, m))
      × ((short : Reader) → length short < 4 → register_command sock short reply m ≡ ok none)
unfolding register_command answer
register_command_lem sock version options r reply m h k = (
  rw (word version h, word options k)
      (ap (λ w. ok (some (answer sock version options m, w)))
        (put_answer_lem version options reply)),
  λ e f. ground (arith, e, f),
  λ n. ground (arith, n),
  λ short s. request_short sock short reply m s,
)

abbrev services_bytes : List ℕ
services_bytes = le16 1 ++ (le16 0x100 ++ (le16 20 ++ (le16 1 ++ (le16 0x120 ++ name_of_service))))

put_services-append : Puts put_services services_bytes
unfolding put_services
put_services-append = chain (put16-append 1) (
    chain (put16-append 0x100) (
      chain (put16-append 20)
        (chain (put16-append 1) (chain (put16-append 0x120) (Puts-append name_of_service)))))

-- The reply to ListServices is a run of 26 bytes; a room of less is the result -1, not an exception.
list_services_lem :
    (reply : Writer)
    → (length services_bytes ≡ 26)
      × (26 ≤ capacity reply → list_services reply ≡ ok (some (store services_bytes reply)))
      × (capacity reply < 26 → list_services reply ≡ ok none)
unfolding list_services
list_services_lem reply = (
  refl,
  λ h. rw (put_services-append.puts reply, append_fits services_bytes reply h),
  λ h. rw (put_services-append.puts reply, append_overruns services_bytes reply h),
)

-- The delay of a ListIdentity reply is at most the one asked for, where 0 stands for 2 seconds and less
-- than half a second for half a second, for every number up to RAND_MAX that rand() returns.
delay_msecs-le :
    (rand_max random msecs : ℕ)
    → random ≤ rand_max
    → delay_msecs rand_max random msecs ≤ max_delay msecs
unfolding delay_msecs
delay_msecs-le rand_max random msecs h =
    let top = max_delay msecs in
    let product : top * random ≤ rand_max * top = grind arith in
    let wrapped : top * random % 2 ^ 64 ≤ top * random = mod-le (top * random) (2 ^ 64) in
    let scaled : top * random % 2 ^ 64 / rand_max ≤ top =
      div-le_of_le-mul rand_max (omega (arith, product, wrapped)) in
    omega (arith, scaled, mod-le (top * random % 2 ^ 64 / rand_max) (2 ^ 32))
