-- ===== src/Ctl/Listing.antt =====
-- qdctl.c: `show targets` (list, readreply, recvshowreply, processTARGETLISTreply) with the daemon's
-- processTARGET_LIST of api.c.
use qaoed.Base.{
  ℕ, ◌*◌, ◌/◌, ◌≡◌, refl, sym, ap, ◌∙◌, arith, List, [], ◌∷◌, ◌++◌, map, append-nil, append_assoc,
  some, true, false, Outcome, done, fault, blocked, false, ltb, if◌then◌else◌, length, take,
  take-append_length, All, inl, inr, Bool-cases,
}
use qaoed.Conf.{Ifst, AoeDev, QConfig}
use qaoed.Main.{Life, alive, exited}
use qaoed.Api.{TargetInfo}
use qaoed.Api.Query.{ok_reply, target_list, sizeof_target_info}
use qaoed.Api.Query.Listed.{IsListable, Rows, target_list-Rows}
use qaoed.Api.Dispatch.{Answers, process_request}
use qaoed.Ctl.{Line, says, shows_target, Session}
use qaoed.Ctl.Safe.{bind_alive, bind_exited}
use qaoed.Ctl.Serve.{
  Request, targets, get_list, list_command, command, body, Answer, Reaction, closed, answers,
  target_rows, reply, serve,
}
use qaoed.Ctl.Print.{exchange, print_all, row_lines, readreply, recvshowreply}
use qaoed.Ctl.Commands.{Client, list}

-- The session once more lines are printed.
abbrev pub printing : List Line → Session → Session
printing ls s = record s { printed = s.printed ++ ls }

abbrev pub heading : Line
heading = says "NAME                                 SHELF    SLOT     INTERFACE"

print_all-done : (ls : List Line) (s : Session) → print_all ls s ≡ done (alive tt, printing ls s)
unfolding print_all
print_all-done [] s = rw (append-nil s.printed)
print_all-done (l ∷ ls) s =
    rw (print_all-done ls (printing (l ∷ []) s), append_assoc s.printed (l ∷ []) ls)

length-Rows :
    (intlist : List Ifst) (ds : List AoeDev) (ts : List TargetInfo)
    → Rows intlist ds ts
    → length ds ≡ length ts
length-Rows intlist [] [] h = refl
length-Rows intlist [] (t ∷ ts) h = elim h [ ]
length-Rows intlist (d ∷ ds) [] h = elim h [ ]
length-Rows intlist (d ∷ ds) (t ∷ ts) h = rw (length-Rows intlist ds ts h.1)

take_all : (ts : List TargetInfo) → take (length ts) ts ≡ ts
take_all ts = ap (take (length ts)) (sym (append-nil ts)) ∙ take-append_length ts []

-- The reply to a request for the targets, and what is printed of it.
abbrev rows_answer : List TargetInfo → Answer
rows_answer ts = record {
  cmd = 6;
  error = 0;
  arg_len = length ts * sizeof_target_info;
  sent = length ts * sizeof_target_info;
  payload = target_rows ts;
}

whole_rows : (n : ℕ) → n * sizeof_target_info / sizeof_target_info ≡ n
whole_rows n = omega arith

row_lines-targets :
    (ts : List TargetInfo) → row_lines (rows_answer ts) ≡ heading ∷ map shows_target ts
unfolding row_lines
row_lines-targets ts = rw (whole_rows (length ts), take_all ts)

readreply_fits :
    (ts : List TargetInfo) (s : Session)
    → ltb 13 (length ts) ≡ false
    → readreply (answers (rows_answer ts)) s ≡ done (alive (rows_answer ts), s)
unfolding readreply
readreply_fits ts s few = ground arith

readreply_long :
    (ts : List TargetInfo) (s : Session)
    → ltb 13 (length ts) ≡ true
    → readreply (answers (rows_answer ts)) s
      ≡ done (exited, printing (says "argument lenght has bogus value" ∷ []) s)
unfolding readreply
readreply_long ts s many = ground arith

served_targets :
    (ans : Answers) (conf : QConfig) (ts : List TargetInfo)
    → target_list ans.malloc conf ≡ done (conf, some (ok_reply (length ts * sizeof_target_info) ts))
    → serve ans (get_list targets) conf ≡ done (answers (rows_answer ts), conf)
unfolding serve process_request command list_command body reply
served_targets ans conf ts e = rw e

-- The program prints up to 13 rows. More of them make a reply that it refuses.
abbrev pub shows : List TargetInfo → Session → Outcome (Life (Unit {0}) × Session)
shows ts s =
    if ltb 13 (length ts)
    then done (exited, printing (says "argument lenght has bogus value" ∷ []) s)
    else done (alive tt, printing (heading ∷ map shows_target ts) s)

recvshowreply-rows :
    (ts : List TargetInfo) (s : Session) → recvshowreply (answers (rows_answer ts)) s ≡ shows ts s
unfolding recvshowreply
recvshowreply-rows ts s = elim (Bool-cases (ltb 13 (length ts))) [
  | inl many ↦
      bind_exited _ (readreply (answers (rows_answer ts)) s) _ (readreply_long ts s many) ∙ rw many
  | inr few ↦
      bind_alive _ (readreply (answers (rows_answer ts)) s) s (rows_answer ts)
        (readreply_fits ts s few)
      ∙ rw (few, row_lines-targets ts, print_all-done (heading ∷ map shows_target ts) s)
]

abbrev received : Session → Outcome (Reaction × QConfig) → Outcome (Life Reaction × Session)
received s o = elim o [
  | done (reaction, conf') ↦ done (alive reaction, record s { conf = conf' })
  | fault ↦ fault
  | blocked ↦ blocked
]

exchange-targets :
    (ans : Request → Answers) (s : Session) (ts : List TargetInfo)
    → s.connected ≡ true
    → serve (ans (get_list targets)) (get_list targets) s.conf
      ≡ done (answers (rows_answer ts), s.conf)
    → exchange ans (get_list targets) s ≡ done (alive (answers (rows_answer ts)), s)
unfolding exchange
exchange-targets ans s ts open_socket e =
    ap
      (λ b. elim b as (λ _. Outcome (Life Reaction × Session)) [
        | false ↦ done (alive closed, s)
        | true ↦ received s (serve (ans (get_list targets)) (get_list targets) s.conf)
      ])
      open_socket
    ∙ ap (received s) e

-- The control program that asks for the targets on an open socket, while nobody writes the list, the
-- daemon has memory and the names fit their fields, prints the heading and one row for each device, in
-- order, that tells its file, address and interface. With 14 or more devices it prints that the length
-- is bogus and ends. The daemon is left as it was.
pub list-targets :
    (cl : Client) (s : Session)
    → s.connected ≡ true
    → (cl.answers (get_list targets)).malloc ≡ true
    → s.conf.devlistlock.writer ≡ false
    → All (IsListable s.conf.intlist) s.conf.devices
    → (ts : List TargetInfo) × Rows s.conf.intlist s.conf.devices ts
      × (list cl targets s ≡ shows ts s)
unfolding list
list-targets cl s open_socket memory free listable =
    let (ts, e, rows) = target_list-Rows s.conf free listable in
    let n = length-Rows s.conf.intlist s.conf.devices ts rows in
    (
      ts,
      rows,
      bind_alive recvshowreply (exchange cl.answers (get_list targets) s) s
            (answers (rows_answer ts))
            (exchange-targets cl.answers s ts open_socket
              (served_targets (cl.answers (get_list targets)) s.conf ts (rw (memory, e, n))))
          ∙ recvshowreply-rows ts s,
    )
