-- ===== src/Tests/Sessions.antt =====
-- Sessions on the control socket, and the start of the devices.
use qaoed.Base.{ℕ, ◌≡◌, refl, pos, negsuc, ◌+ℤ◌, [], ◌∷◌, some, true, false}
use qaoed.Conf.{AoeDev, QConfig}
use qaoed.Api.Add.{
  target_add, take_defaults, devdefaults, new_device, other_file, conflicts, any_conflict,
  admit_target, append_target, find_log, referencelog,
}
use qaoed.Start.Devices.{started}
use qaoed.Api.{find_int, referenceint, target_del, is_target, count_targets}
use qaoed.Api.Add.Exclusive.{Exclusive}
use qaoed.Api.Lock.{rdlock, wrlock, unlock, unlock_for}
use qaoed.Api.Query.{strcpy, fill, target_info, target_list, acl_info, acl_list}
use qaoed.Api.Dispatch.{
  Answers, Message, cast, passes, add_locked, del_locked, process_request, closes, argument,
  recv_requests,
}
use qaoed.Api.Socket.{serve_connections, qaoed_api, qaoed_api-Exclusive}
use qaoed.Start.{
  System, add_refs, intrefup, startworker, start_found, start_open, start_named, startdevice,
  start_all,
}
use qaoed.Start.Counted.{Running, start_all-Running}
use qaoed.Tests.Setting.{eth0, disk0}
use qaoed.Tests.Control.{conf, info, acls}

-- The configuration while somebody reads the list of interfaces.
abbrev pub shared : QConfig
shared = record conf { intlistlock = record { readers = 1; writer = false } }

abbrev pub after_status : QConfig
after_status = record conf {
  devlistlock = record { readers = 1; writer = false };
  intlistlock = record { readers = 0; writer = false };
}

abbrev pub system : System
system = record {
  opens = λ sync name. true;
  fdopens = λ name. true;
  stat = λ name. some (record { is_device = false; st_size = 4096 });
  getsize = λ name. 0;
  mutex = λ d. true;
  cond = λ d. true;
  thread = λ d. true;
  malloc = λ i. true;
  listens = λ i. true;
}

-- The configuration with the new device, whose file has 8 blocks.
abbrev grown : QConfig
grown = record conf {
  devices =
      disk0
      ∷ record disk0 { devicename = some "/dev/sdb"; slot = 3; broadcast = pos 0; size = 8 }
      ∷ [];
}

abbrev pub answers : Answers
answers = record {
  sys = system;
  malloc = true;
  fresh = some disk0;
  getifmtu = λ name. pos 9000;
  cancelled = negsuc 0;
}

abbrev message : ℕ → Message
message cmd = record {
  whole = true;
  cmd = cmd;
  arg_len = 1284;
  memory = true;
  arrived = true;
  arg = record { len = 1284; target = info; acls = acls; ifname = "eth0"; mtu = pos 1500 };
  answers = answers;
}

-- Two clients: a new target, then the lists of targets and of access lists.
abbrev socket_conf : QConfig → QConfig
socket_conf conf = record conf { sockpath = some "/tmp/qaoedsocket" }

qaoed_api_example : Exclusive grown.devices × (negsuc 0 ≡ negsuc 0)
unfolding qaoed_api serve_connections recv_requests closes argument process_request cast passes
    add_locked del_locked target_del is_target count_targets rdlock wrlock unlock unlock_for
    target_list fill target_info strcpy acl_list acl_info target_add take_defaults devdefaults
    new_device other_file conflicts any_conflict admit_target append_target find_int referenceint
    find_log referencelog started startdevice start_named start_open start_found startworker
    intrefup add_refs
qaoed_api_example =
    qaoed_api-Exclusive (record { socket = true; bind = true; listen = true })
      ((message 8 ∷ []) ∷ (message 6 ∷ message 12 ∷ []) ∷ []) (socket_conf conf) (socket_conf grown)
      (negsuc 0) (tt, tt) refl

-- The second device cannot be opened.
abbrev flaky : System
flaky = record system { fdopens = λ name. false }

abbrev closed : AoeDev
closed = record disk0 { fp = false; slot = 3 }

start_all-Running_example :
    Running 0 (disk0 ∷ closed ∷ []) (eth0 ∷ []) (record eth0 { refcnt = pos 1 } ∷ []) (negsuc 0)
unfolding start_all startdevice start_named start_open start_found startworker intrefup add_refs
    ◌+ℤ◌
start_all-Running_example =
    start_all-Running flaky 0 (disk0 ∷ closed ∷ []) (record disk0 { size = 8 } ∷ closed ∷ [])
      (eth0 ∷ []) (record eth0 { refcnt = pos 1 } ∷ []) (negsuc 0) refl
