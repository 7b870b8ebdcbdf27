-- ===== src/Tests/Ctl.antt =====
-- The control program at the daemon's socket.
use qaoed.Base.{◌≡◌, refl, arith, pos, List, [], ◌∷◌, true, done, blocked}
use qaoed.Conf.{QConfig}
use qaoed.Main.{alive}
use qaoed.Api.{TargetInfo}
use qaoed.Api.Lock.{rdlock, wrlock, unlock, unlock_for}
use qaoed.Api.Query.{status, strcpy, strncpy, fill, target_info, target_list}
use qaoed.Api.Dispatch.{cast, passes, del_locked, process_request}
use qaoed.Ctl.{Line, says, shows_target, Session}
use qaoed.Ctl.Serve.{targets, list_command, command, body, reply, serve}
use qaoed.Ctl.Print.{
  exchange, readreply, print_all, row_lines, recvshowreply, test_reply, test_api_socket,
}
use qaoed.Ctl.Commands.{
  Client, begins, all_digits, number, number_or, to_int, api_adddel_target, adddel_numbers,
  adddel_target, list, del, show, openapi, qdctl,
}
use qaoed.Api.Query.Listed.{Rows}
use qaoed.Ctl.Listing.{shows, list-targets}
use qaoed.Tests.Setting.{eth0}
use qaoed.Ctl.Locked.{Locked}
use qaoed.Tests.Control.{conf}
use qaoed.Tests.Sessions.{shared, after_status, answers}

abbrev client : Client
client = record { answers = λ r. answers; strtol = λ s. pos 1; connects = true }

abbrev session : QConfig → List Line → Session
session conf printed = record { conf = conf; printed = printed; connected = true }

abbrev row : TargetInfo
row = record {
  devicename = "/dev/sda";
  shelf = 1;
  slot = 2;
  ifname = "eth0";
  writecache = pos 1;
  broadcast = pos 1;
}

abbrev shown : List Line
shown =
    says "NAME                                 SHELF    SLOT     INTERFACE" ∷ shows_target row ∷ []

-- If somebody reads the interfaces, the list of targets is printed, and the daemon's list stays locked.
targets_shown :
    qdctl client ("show" ∷ "targets" ∷ []) (session shared [])
    ≡ done (alive tt, session after_status shown)
unfolding qdctl openapi test_api_socket test_reply exchange serve process_request command body
    list_command reply status rdlock unlock unlock_for begins strncpy show list recvshowreply
    readreply row_lines print_all target_list fill target_info strcpy
targets_shown = refl

-- A removal waits for ever.
removal_waits :
    qdctl client ("remove" ∷ "target" ∷ "/dev/sda" ∷ "1" ∷ []) (session shared []) ≡ blocked
unfolding qdctl openapi test_api_socket test_reply exchange serve process_request command body reply
    status rdlock wrlock unlock unlock_for begins strncpy del adddel_target adddel_numbers
    api_adddel_target number_or number all_digits to_int strcpy cast passes del_locked
removal_waits = refl

list-targets_example :
    (ts : List TargetInfo) × Rows shared.intlist shared.devices ts
    × (list client targets (session shared []) ≡ shows ts (session shared []))
list-targets_example =
    list-targets client (session shared []) refl refl refl
      (("/dev/sda", 0, eth0, refl, refl, refl, omega arith, omega arith), tt)
