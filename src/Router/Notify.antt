-- ===== src/Router/Notify.antt =====
-- CipMessageRouterClass::NotifyMR(). What a service function does is the application's: `call` gives
-- it, and changes a world of the application's, the response and the packet that the response knows.
pub mod Laws
use cipster.Base.{ℕ, ◌==◌, List, Option, none, some, if◌then◌else◌}
use cipster.Epath.AppPath.{AppPath, has, get, class_id, instance_id}
use cipster.Cpf.{Cpf}
use cipster.Cip.Class.{
  Service, Level, of_instances, of_class, CipClass, Target, find_class, service_of, instance_of,
}
use cipster.Router.Request.{Request}
use cipster.Router.Response.{Response, set_service, set_gen_status}

pub data EipStatus : Type 0 where
  status_ok status_ok_send status_error : EipStatus

-- The values of CipError that the router itself gives.
abbrev pub path_segment_error : ℕ
path_segment_error = 0x04

abbrev pub path_destination_unknown : ℕ
path_destination_unknown = 0x05

abbrev pub service_not_supported : ℕ
service_not_supported = 0x08

-- What a service function can change.
pub record Exchange (W : Type 0) : Type 0 where
  pub world : W
  pub response : Response
  pub packet : Cpf

abbrev pub ServiceCall : Type 0 → Type 0 → Type 0 → Type 0
ServiceCall I F W = F → Target I F → Request → Exchange W → EipStatus × Exchange W

abbrev pub refuse : {W : Type 0} → ℕ → Exchange W → EipStatus × Exchange W
refuse status x = (status_ok_send, record x { response = set_gen_status status x.response })

-- The class and the instance that a path names. A symbol is the business of the class 0x6b.
abbrev pub addressed : AppPath → Option (ℕ × ℕ)
addressed p =
    if p.has_symbol
    then some (0x6b, 0)
    else if has instance_id p
    then some (get class_id p, get instance_id p)
    else none

abbrev pub level_of : ℕ → Level
level_of i = if i == 0 then of_class else of_instances

module _ {I F W : Type 0} (call : ServiceCall I F W) where
  abbrev pub call_target :
      Option (Target I F) → Service F → Request → Exchange W → EipStatus × Exchange W
  call_target none s q x = refuse path_destination_unknown x
  call_target (some target) s q x = call s.service_function target q x

  -- The service is looked for before the instance.
  abbrev pub call_service :
      Option (Service F) → ℕ → CipClass I F → Request → Exchange W → EipStatus × Exchange W
  call_service none i c q x = refuse service_not_supported x
  call_service (some s) i c q x = call_target (instance_of i c) s q x

  abbrev pub call_class : Option (CipClass I F) → ℕ → Request → Exchange W → EipStatus × Exchange W
  call_class none i q x = refuse path_destination_unknown x
  call_class (some c) i q x = call_service (service_of (level_of i) q.service c) i c q x

  abbrev pub call_addressed :
      Option (ℕ × ℕ) → List (CipClass I F) → Request → Exchange W → EipStatus × Exchange W
  call_addressed none registry q x = refuse path_destination_unknown x
  call_addressed (some (k, i)) registry q x = call_class (find_class k registry) i q x

  unfoldable pub notify_mr : List (CipClass I F) → Request → Exchange W → EipStatus × Exchange W
  unfolding instance_of service_of find_class
  notify_mr registry q x =
      call_addressed (addressed q.path) registry q
        (record x { response = set_service q.service x.response })
