-- ===== src/Ctl/Serve.antt =====
-- The daemon as the control program meets it: processAPIrequest of api.c with the replies of the
-- commands that the program sends. A reply is the header and what is sent after it.
pub mod Held
use qaoed.Base.{
  ℕ, ℤ, negsuc, String, List, [], ◌∷◌, Option, none, some, Bool, true, false, Outcome, done, ◌>>=◌,
  if◌then◌else◌,
}
use qaoed.Conf.{QConfig}
use qaoed.Api.{TargetInfo, TargetAcls, api_allok, api_failure, interface_setmtu, target_del}
use qaoed.Api.Add.{target_add}
use qaoed.Api.Query.{
  Status, AclInfo, IfInfo, Response, no_info, sizeof_target_info, sizeof_interface_cmd, status,
  target_list, acl_list, int_list, interface_status,
}
use qaoed.Api.Dispatch.{Argument, Answers, process_request}
use qaoed.Start.Devices.{started}

-- The requests of the program. The three lists have the commands 1, 6 and 12.
pub data Listing : Type 0 where
  interfaces targets access_lists : Listing

pub data Request : Type 0 where
  get_status : Request
  get_list : Listing → Request
  get_interface : String → Request
  set_interface : String → ℤ → Request
  add_target del_target : TargetInfo → Request

unfoldable pub list_command : Listing → ℕ
list_command interfaces = 1
list_command targets = 6
list_command access_lists = 12

unfoldable pub command : Request → ℕ
command get_status = 0
command (get_list l) = list_command l
command (get_interface name) = 2
command (set_interface name mtu) = 5
command (add_target t) = 8
command (del_target t) = 9

abbrev pub no_target : TargetInfo
no_target = record {
  devicename = "";
  shelf = 0;
  slot = 0;
  ifname = "";
  writecache = negsuc 0;
  broadcast = negsuc 0;
}

-- The argument of a request, as the daemon reads it.
abbrev pub argument_of : ℕ → TargetInfo → String → ℤ → Argument
argument_of len t ifname mtu = record {
  len = len;
  target = t;
  acls = record { info = t; wacl = ""; racl = ""; cfgsetacl = ""; cfgracl = "" };
  ifname = ifname;
  mtu = mtu;
}

unfoldable pub body : Request → Option Argument
body get_status = none
body (get_list l) = none
body (get_interface name) = some (argument_of sizeof_interface_cmd no_target name (negsuc 0))
body (set_interface name mtu) = some (argument_of sizeof_interface_cmd no_target name mtu)
body (add_target t) = some (argument_of sizeof_target_info t "" (negsuc 0))
body (del_target t) = some (argument_of sizeof_target_info t "" (negsuc 0))

-- What stands behind the header of a reply.
pub data Payload : Type 0 where
  no_payload : Payload
  status_payload : Status → Payload
  target_rows : List TargetInfo → Payload
  interface_rows : List IfInfo → Payload
  acl_rows : List AclInfo → Payload
  interface_payload : IfInfo → Payload
  mtu_payload : ℤ → Payload
  target_payload : TargetInfo → Payload

pub record Answer : Type 0 where
  pub cmd : ℕ
  pub error : ℕ
  pub arg_len : ℕ
  pub sent : ℕ
  pub payload : Payload

-- What the program's `recv` meets: nothing, the end of the connection, or a reply.
pub data Reaction : Type 0 where
  silent closed : Reaction
  answers : Answer → Reaction

abbrev pub to_answer : {A : Type 0} → ℕ → (A → Payload) → Response A → Reaction
to_answer cmd payload r = answers (record {
  cmd = cmd;
  error = r.error;
  arg_len = r.arg_len;
  sent = r.sent;
  payload = payload r.arg;
})

abbrev pub to_reaction : {A : Type 0} → ℕ → (A → Payload) → Option (Response A) → Reaction
to_reaction cmd payload none = silent
to_reaction cmd payload (some r) = to_answer cmd payload r

-- A reply whose payload is there or not.
abbrev pub plain_answer : ℕ → ℕ → ℕ → Payload → Reaction
plain_answer cmd error len payload =
    answers (record { cmd = cmd; error = error; arg_len = len; sent = len; payload = payload })

-- The reply of `processTARGET_ADD`; a conflict with another target gets none.
unfoldable pub added : Option (ℕ × Option TargetInfo) → Reaction
added none = silent
added (some (error, none)) = plain_answer 8 error 0 no_payload
added (some (error, some t)) = plain_answer 8 error sizeof_target_info (target_payload t)

unfoldable pub reply : Answers → Request → QConfig → Outcome Reaction
reply ans get_status conf = do r ← status conf; done (to_answer 0 status_payload r.1)
reply ans (get_list interfaces) conf = do
  r ← int_list ans.malloc conf
  done (to_reaction 1 interface_rows r.1)
reply ans (get_list targets) conf = do
  r ← target_list ans.malloc conf
  done (to_reaction 6 target_rows r.1)
reply ans (get_list access_lists) conf = do
  r ← acl_list ans.malloc conf
  done (to_reaction 12 acl_rows r)
reply ans (get_interface name) conf = do
  r ← interface_status name conf
  done (to_answer 2 interface_payload r)
reply ans (set_interface name mtu) conf =
    let (conf', error, told) = interface_setmtu ans.getifmtu name mtu conf in
    done (plain_answer 5 error sizeof_interface_cmd (mtu_payload told))
reply ans (add_target t) conf = do
  r ← target_add (started ans.sys conf.intlist) ans.fresh t conf
  done (added r.1)
reply ans (del_target t) conf = do
  r ← target_del ans.cancelled t conf
  done (plain_answer 9 r.1 0 no_payload)

-- The command is carried out, and its reply is sent.
unfoldable pub serve : Answers → Request → QConfig → Outcome (Reaction × QConfig)
serve ans r conf = do
  conf' ← process_request ans (command r) (body r) conf
  reaction ← reply ans r conf
  done (reaction, conf')
