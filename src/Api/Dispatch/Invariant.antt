-- ===== src/Api/Dispatch/Invariant.antt =====
-- No sequence of commands spoils the configuration.
use qaoed.Base.{
  String, ℕ, ◌≡◌, refl, sym, ap, subst, ℤ, List, [], ◌∷◌, Option, Bool, true, false, inl, inr,
  Bool-cases, Outcome, done, ◌>>=◌, if◌then◌else◌, ◌==◌, ltb, length,
}
use qaoed.Base.Results.{>>=-eq-done}
use qaoed.Conf.{QConfig}
use qaoed.Api.{TargetInfo, TargetAcls, target_setacl, target_del, is_target, interface_setmtu}
use qaoed.Api.Add.{target_add}
use qaoed.Api.Add.Exclusive.{Exclusive}
use qaoed.Api.Lock.{rdlock, wrlock, unlock}
use qaoed.Api.Query.{
  fill, target_info, if_info, status, target_list, acl_list, int_list, interface_status,
}
use qaoed.Start.Devices.{started, started-target_add-Exclusive}
use qaoed.Api.Dispatch.{
  Argument, Answers, Message, cast, passes, add_locked, del_locked, process_request, closes,
  argument, recv_requests,
}
use qaoed.Api.Dispatch.Targets.{
  Exclusive-SameTargets, set_devices-SameTargets, target_del-Exclusive,
}

-- A result that is a configuration with the same devices, or with exclusive ones.
module _ (conf conf' : QConfig) where
  same_devices :
      (next : QConfig)
      → next.devices ≡ conf.devices
      → Exclusive conf.devices
      → ◌≡◌ {A = Outcome QConfig} (done next) (done conf')
      → Exclusive conf'.devices
  same_devices next e v h =
      let same : next ≡ conf' = cc h in
      subst (λ (c : QConfig). Exclusive c.devices) same (subst Exclusive (sym e) v)

  status-Exclusive :
      Exclusive conf.devices
      → (status conf >>= λ r. done r.0) ≡ done conf'
      → Exclusive conf'.devices
  unfolding status
  status-Exclusive v h =
      let (r, e, h') = >>=-eq-done (status conf) _ h in
      let (d1, e1, h1) = >>=-eq-done (rdlock conf.devlistlock) _ e in
      let (d2, e2, h2) = >>=-eq-done (unlock d1) _ h1 in
      let (d3, e3, h3) = >>=-eq-done (rdlock d2) _ h2 in
      let (i1, e4, h4) = >>=-eq-done (unlock conf.intlistlock) _ h3 in
      let q : record conf { devlistlock = d3; intlistlock = i1 } ≡ r.0 = cc h4 in
      same_devices r.0 (ap (λ (c : QConfig). c.devices) (sym q)) v h'

  target_list-Exclusive :
      (malloc : Bool)
      → Exclusive conf.devices
      → (target_list malloc conf >>= λ r. done r.0) ≡ done conf'
      → Exclusive conf'.devices
  unfolding target_list
  target_list-Exclusive malloc v h =
      let (r, e, h') = >>=-eq-done (target_list malloc conf) _ h in
      let (d1, e1, h1) = >>=-eq-done (rdlock conf.devlistlock) _ e in
      let (l, e2, h2) =
        >>=-eq-done
          (if malloc
            then fill (target_info conf.intlist) (length conf.devices) conf.devices
            else done [])
          _ h1 in
      let (d3, e3, h3) = >>=-eq-done (unlock d1) _ h2 in
      let q : record conf { devlistlock = d3 } ≡ r.0 = cc h3 in
      same_devices r.0 (ap (λ (c : QConfig). c.devices) (sym q)) v h'

  int_list-Exclusive :
      (malloc : Bool)
      → Exclusive conf.devices
      → (int_list malloc conf >>= λ r. done r.0) ≡ done conf'
      → Exclusive conf'.devices
  unfolding int_list
  int_list-Exclusive malloc v h =
      let (r, e, h') = >>=-eq-done (int_list malloc conf) _ h in
      let (d1, e1, h1) = >>=-eq-done (rdlock conf.intlistlock) _ e in
      let (l, e2, h2) =
        >>=-eq-done (if malloc then fill if_info (length conf.intlist) conf.intlist else done []) _
          h1 in
      let (d3, e3, h3) = >>=-eq-done (unlock d1) _ h2 in
      let q : record conf { intlistlock = d3 } ≡ r.0 = cc h3 in
      same_devices r.0 (ap (λ (c : QConfig). c.devices) (sym q)) v h'

  -- A query that gives a reply and changes nothing.
  query-Exclusive :
      {A : Type 0} (m : Outcome A)
      → Exclusive conf.devices
      → (m >>= λ r. done conf) ≡ done conf'
      → Exclusive conf'.devices
  query-Exclusive m v h = let (r, e, h') = >>=-eq-done m _ h in same_devices conf refl v h'

  add_locked-Exclusive :
      (ans : Answers) (t : TargetInfo)
      → Exclusive conf.devices
      → add_locked ans t conf ≡ done conf'
      → Exclusive conf'.devices
  unfolding add_locked
  add_locked-Exclusive ans t v h =
      let (l, e1, h1) = >>=-eq-done (passes rdlock conf.devlistlock) _ h in
      let (r, e2, h2) =
        >>=-eq-done (target_add (started ans.sys conf.intlist) ans.fresh t conf) _ h1 in
      let (w, e3, h3) =
        >>=-eq-done
          (if ltb (length conf.devices) (length r.0.devices) then passes wrlock l else done l) _
          h2 in
      let q : record (r.0) { devlistlock = w } ≡ conf' = cc h3 in
      subst (λ (c : QConfig). Exclusive c.devices) q
        (started-target_add-Exclusive ans.sys ans.fresh t conf r.0 r.1 v e2)

  del_locked-Exclusive :
      (ans : Answers) (t : TargetInfo)
      → Exclusive conf.devices
      → del_locked ans t conf ≡ done conf'
      → Exclusive conf'.devices
  unfolding del_locked
  del_locked-Exclusive ans t v h =
      let (l, e1, h1) = >>=-eq-done (passes wrlock conf.devlistlock) _ h in
      let (r, e2, h2) = >>=-eq-done (target_del ans.cancelled t conf) _ h1 in
      let q : record (r.0) { devlistlock = l } ≡ conf' = cc h2 in
      subst (λ (c : QConfig). Exclusive c.devices) q
        (target_del-Exclusive ans.cancelled t conf r.0 r.1 v e2)

  interface_setmtu-Exclusive :
      (getifmtu : String → ℤ) (name : String) (mtu : ℤ)
      → Exclusive conf.devices
      → ◌≡◌ {A = Outcome QConfig} (done (interface_setmtu getifmtu name mtu conf).0) (done conf')
      → Exclusive conf'.devices
  unfolding interface_setmtu
  interface_setmtu-Exclusive getifmtu name mtu v h =
      same_devices (interface_setmtu getifmtu name mtu conf).0 refl v h

  target_setacl-Exclusive :
      (t : TargetAcls)
      → Exclusive conf.devices
      → ◌≡◌ {A = Outcome QConfig} (done (target_setacl t conf).0) (done conf')
      → Exclusive conf'.devices
  unfolding target_setacl
  target_setacl-Exclusive t v h =
      let next = (target_setacl t conf).0 in
      let same : next ≡ conf' = cc h in
      subst (λ (c : QConfig). Exclusive c.devices) same
        (Exclusive-SameTargets conf.devices next.devices
          (set_devices-SameTargets (is_target conf.intlist t.info) t conf.devices conf.acllist) v)

cast-Exclusive :
    (n : ℕ) (arg : Option Argument) (conf conf' : QConfig) (k : Argument → Outcome QConfig)
    → ((a : Argument) → k a ≡ done conf' → Exclusive conf'.devices)
    → (cast n arg >>= k) ≡ done conf'
    → Exclusive conf'.devices
cast-Exclusive n arg conf conf' k each h =
    let (a, e, h') = >>=-eq-done (cast n arg) k h in each a h'

-- Whatever configuration comes out, its devices are exclusive.
abbrev Keeps : Outcome QConfig → Type 0
Keeps m = (conf' : QConfig) → m ≡ done conf' → Exclusive conf'.devices

Keeps-if : (b : Bool) (m n : Outcome QConfig) → Keeps m → Keeps n → Keeps (if b then m else n)
Keeps-if true m n p q = p
Keeps-if false m n p q = q

process_request-Keeps :
    (ans : Answers) (cmd : ℕ) (arg : Option Argument) (conf : QConfig)
    → Exclusive conf.devices
    → Keeps (process_request ans cmd arg conf)
unfolding process_request
process_request-Keeps ans cmd arg conf v =
    Keeps-if (cmd == 0) _ _ (λ c. status-Exclusive conf c v)
      (Keeps-if (cmd == 1) _ _ (λ c. int_list-Exclusive conf c ans.malloc v)
        (Keeps-if (cmd == 2) _ _
          (λ c.
            cast-Exclusive _ arg conf c _
              (λ a. query-Exclusive conf c (interface_status a.ifname conf) v))
          (Keeps-if (cmd == 5) _ _
            (λ c.
              cast-Exclusive _ arg conf c _
                (λ a. interface_setmtu-Exclusive conf c ans.getifmtu a.ifname a.mtu v))
            (Keeps-if (cmd == 6) _ _ (λ c. target_list-Exclusive conf c ans.malloc v)
              (Keeps-if (cmd == 8) _ _
                (λ c.
                  cast-Exclusive _ arg conf c _ (λ a. add_locked-Exclusive conf c ans a.target v))
                (Keeps-if (cmd == 9) _ _
                  (λ c.
                    cast-Exclusive _ arg conf c _ (λ a. del_locked-Exclusive conf c ans a.target v))
                  (Keeps-if (cmd == 11) _ _
                    (λ c.
                      cast-Exclusive _ arg conf c _ (λ a. target_setacl-Exclusive conf c a.acls v))
                    (Keeps-if (cmd == 12) _ _
                      (λ c. query-Exclusive conf c (acl_list ans.malloc conf) v)
                      (λ c. same_devices conf c conf refl v)))))))))

-- No sequence of messages on the control socket spoils the configuration: if any two devices differ in
-- shelf or slot or serve one file on two interfaces, then so they do after the messages have been
-- dealt with, whatever their commands, their arguments and the answers of the system.
pub recv_requests-Exclusive :
    (ms : List Message) (conf conf' : QConfig)
    → Exclusive conf.devices
    → recv_requests ms conf ≡ done conf'
    → Exclusive conf'.devices
unfolding recv_requests
recv_requests-Exclusive [] conf conf' v h = same_devices conf conf' conf refl v h
recv_requests-Exclusive (m ∷ ms) conf conf' v h = elim (Bool-cases (closes m)) [
  | inl e ↦ same_devices conf conf' conf refl v (rw e at h)
  | inr e ↦
      let (next, e1, h1) =
        >>=-eq-done (process_request m.answers m.cmd (argument m) conf) (recv_requests ms)
          (rw e at h) in
      recv_requests-Exclusive ms next conf'
        (process_request-Keeps m.answers m.cmd (argument m) conf v next e1) h1
]
