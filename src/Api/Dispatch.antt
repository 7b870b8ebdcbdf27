-- ===== src/Api/Dispatch.antt =====
-- api.c: processAPIrequest and recvAPIrequest, the commands of one client. What the system answers
-- to a command and what arrives on the connection are arguments; the texts of the replies are those
-- of the commands, and only what becomes of the configuration is followed here.
pub mod Targets
pub mod Invariant
use qaoed.Base.{
  length, ℕ, ℤ, String, List, [], ◌∷◌, Option, none, some, Bool, true, false, not, ◌&&◌, ◌||◌,
  Outcome, done, fault, valid, ◌>>=◌, ◌==◌, ltb, if◌then◌else◌,
}
use qaoed.Conf.{RwLock, Ifst, AoeDev, QConfig}
use qaoed.Api.Lock.{rdlock, wrlock, unlock}
use qaoed.Api.{TargetInfo, TargetAcls, target_setacl, target_del, interface_setmtu}
use qaoed.Api.Add.{target_add}
use qaoed.Api.Query.{
  sizeof_target_info, sizeof_target_info_detailed, sizeof_interface_cmd, status, target_list,
  acl_list, int_list, interface_status,
}
use qaoed.Start.{System}
use qaoed.Start.Devices.{started}

-- The argument of a request: its length, and what its bytes read as.
pub record Argument : Type 0 where
  pub len : ℕ
  pub target : TargetInfo
  pub acls : TargetAcls
  pub ifname : String
  pub mtu : ℤ

-- What the system answers while a command runs: the calls of `malloc`, fresh memory for a device,
-- the MTU of an interface, and the end of a thread.
pub record Answers : Type 0 where
  pub sys : System
  pub malloc : Bool
  pub fresh : Option AoeDev
  pub getifmtu : String → ℤ
  pub cancelled : ℤ

-- A handler reads the argument as a structure of n bytes: NULL and a shorter buffer are read past.
unfoldable pub cast : ℕ → Option Argument → Outcome Argument
cast n none = fault
cast n (some a) = if ltb a.len n then fault else done a

-- A lock is taken and given back.
unfoldable pub passes : (RwLock → Outcome RwLock) → RwLock → Outcome RwLock
passes lock l = lock l >>= unlock

-- The list of devices is held for reading while it is looked through, and for writing while a device
-- that runs is appended.
unfoldable pub add_locked : Answers → TargetInfo → QConfig → Outcome QConfig
add_locked ans t conf = do
  read ← passes rdlock conf.devlistlock
  r ← target_add (started ans.sys conf.intlist) ans.fresh t conf
  written ←
      (if ltb (length conf.devices) (length r.0.devices) then passes wrlock read else done read)
  done (record (r.0) { devlistlock = written })

-- The whole search is made under the lock.
unfoldable pub del_locked : Answers → TargetInfo → QConfig → Outcome QConfig
del_locked ans t conf = do
  written ← passes wrlock conf.devlistlock
  r ← target_del ans.cancelled t conf
  done (record (r.0) { devlistlock = written })

-- The commands that have a handler, by their codes of include/api.h; any other is only printed.
unfoldable pub process_request : Answers → ℕ → Option Argument → QConfig → Outcome QConfig
process_request ans cmd arg conf =
    if cmd == 0
    then (status conf >>= λ r. done r.0)
    else if cmd == 1
    then (int_list ans.malloc conf >>= λ r. done r.0)
    else if cmd == 2
    then (cast sizeof_interface_cmd arg >>= λ a. interface_status a.ifname conf >>= λ r. done conf)
    else if cmd == 5
    then (cast sizeof_interface_cmd arg >>= λ a.
        done (interface_setmtu ans.getifmtu a.ifname a.mtu conf).0)
    else if cmd == 6
    then (target_list ans.malloc conf >>= λ r. done r.0)
    else if cmd == 8
    then (cast sizeof_target_info arg >>= λ a. add_locked ans a.target conf)
    else if cmd == 9
    then (cast sizeof_target_info arg >>= λ a. del_locked ans a.target conf)
    else if cmd == 11
    then (cast sizeof_target_info_detailed arg >>= λ a. done (target_setacl a.acls conf).0)
    else if cmd == 12
    then (acl_list ans.malloc conf >>= λ r. done conf)
    else done conf

-- What arrives: a header that is whole or not, the length of the argument that it announces, whether
-- there is memory for that and whether all of it arrives, and the argument.
pub record Message : Type 0 where
  pub whole : Bool
  pub cmd : ℕ
  pub arg_len : ℕ
  pub memory : Bool
  pub arrived : Bool
  pub arg : Argument
  pub answers : Answers

-- Whether the connection is closed instead of an answer.
unfoldable pub closes : Message → Bool
closes m =
    not m.whole || (ltb 0 m.arg_len && (ltb 2048 m.arg_len || (not m.memory || not m.arrived)))

-- The argument that the handler gets, NULL if none is announced.
unfoldable pub argument : Message → Option Argument
argument m = if ltb 0 m.arg_len then some (record (m.arg) { len = m.arg_len }) else none

-- `recvAPIrequest` over the messages that arrive, until the connection is closed or they end.
unfoldable pub recv_requests : List Message → QConfig → Outcome QConfig
recv_requests [] conf = done conf
recv_requests (m ∷ ms) conf =
    if closes m
    then done conf
    else (process_request m.answers m.cmd (argument m) conf >>= recv_requests ms)
