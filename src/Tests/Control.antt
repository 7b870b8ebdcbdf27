-- ===== src/Tests/Control.antt =====
-- Commands of the control socket.
use qaoed.Base.{ℤ, pos, negsuc, ◌≡◌, ◌+ℤ◌, arith, String, [], ◌∷◌, none, false, length}
use qaoed.Conf.{QConfig}
use qaoed.Api.{TargetInfo, TargetAcls, target_setacl, interface_setmtu}
use qaoed.Api.Acls.{refcnt_at, all_uses, target_setacl_balanced}
use qaoed.Api.Targets.{AllFit, interface_setmtu-AllFit}
use qaoed.Tests.Setting.{accept_one, refuse_all, eth0, disk0}

abbrev pub conf : QConfig
conf = record {
  log = none;
  log_level = pos 0;
  intlistlock = record { readers = 0; writer = false };
  intlist = eth0 ∷ [];
  devdefault = none;
  devlistlock = record { readers = 0; writer = false };
  devices = disk0 ∷ [];
  acllist = accept_one ∷ refuse_all ∷ [];
  loglist = [];
  aclnumplan = 2;
  sockpath = none;
}

abbrev pub info : TargetInfo
info = record {
  devicename = "/dev/sdb";
  shelf = 1;
  slot = 3;
  ifname = "eth0";
  writecache = pos 1;
  broadcast = pos 0;
}

-- A request for the target at shelf 1 and slot 2.
abbrev pub acls : TargetAcls
acls = record {
  info = record info { slot = 2 };
  wacl = "one";
  racl = "none";
  cfgsetacl = "";
  cfgracl = "two";
}

target_setacl_example :
    (length (target_setacl acls conf).0.acllist ≡ 2)
    × (refcnt_at 0 (target_setacl acls conf).0.acllist +ℤ pos (all_uses 0 conf.devices)
        ≡ pos 0 +ℤ pos (all_uses 0 (target_setacl acls conf).0.devices))
target_setacl_example = target_setacl_balanced acls conf 0 (omega arith)

abbrev system_mtu : String → ℤ
system_mtu name = pos 9000

interface_setmtu_example :
    AllFit system_mtu (interface_setmtu system_mtu "eth0" (negsuc 0) conf).0.intlist
interface_setmtu_example =
    interface_setmtu-AllFit system_mtu "eth0" (negsuc 0) conf (omega arith, tt)
