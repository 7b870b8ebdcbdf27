-- ===== src/Worker/Advertise.antt =====
-- The advertisement of a device.
use qaoed.Base.{
  ℕ, ◌+◌, ◌≡◌, refl, List, [], ◌∷◌, ◌++◌, append-nil, some, Bool, true, false, arith, done,
  write_self, write_ne, length, take, get_elem?,
}
use qaoed.Wire.{CfgFrame, aoe_cfghdr_size, eth_p_aoe}
use qaoed.Wire.Order.{htons-lt}
use qaoed.Wire.Layout.{load_aoe, store_cfg}
use qaoed.Wire.RoundTrip.{IsAoe, IsCfg, load_aoe-store_aoe, load_cfg-store_cfg}
use qaoed.Conf.{Ifst, AoeDev}
use qaoed.Memory.{Memory, set_work, set_pkt, workdestroy}
use qaoed.Memory.Lifetime.{IsHeld, IsFreed, SameElse, SameElse-trans, workdestroy-IsFreed}
use qaoed.Device.{Machine, cfg, Sent, World, Setting, refused, stamp, xmit}
use qaoed.Device.Reply.{reply_header, createpkt-some}
use qaoed.Cfg.{
  maxsect, check_access, respond, begin_reply, answer, cfg_read, send_reply, process_cfg,
}
use qaoed.Cfg.Store.{IsStored, with_string-done}
use qaoed.Worker.{
  fake_read, fake_packet, fake_work, int_position, dobcast, processwork, handle_packet,
  handle_command, handle_cfg,
}

module _ (mc : Machine) (st : Setting) (dev : AoeDev) (h_source : List ℕ) where
  open mc use {Disk}

  -- The reply to a read that the address is taken to have sent: the string of the device, its shelf
  -- and slot, and what its interface can carry.
  abbrev pub advert : Ifst → CfgFrame
  advert iface = record {
    aoehdr = reply_header mc dev (fake_read mc true st h_source).aoehdr;
    queuelen = mc.host.htons 20;
    firmware = mc.host.htons 0x400a;
    maxsect = maxsect iface.mtu;
    aoever_cmd = 0x10;
    cfg_len = mc.host.htons dev.cfg_len;
    cfg = take dev.cfg_len dev.cfg;
  }

  abbrev pub sent_advert : ℕ → Ifst → Sent
  sent_advert i iface = record {
    ifentry = i;
    frame = stamp iface.hwaddr (cfg (advert iface));
    len = aoe_cfghdr_size + length (take dev.cfg_len dev.cfg);
  }

  fake_read-IsAoe : length h_source ≡ 6 → IsAoe (fake_read mc true st h_source).aoehdr
  unfolding fake_read
  fake_read-IsAoe six = record {
    eth = record { dest = refl; source = six; proto = htons-lt mc.host eth_p_aoe (omega arith) };
    shelf = omega arith;
    tag = omega arith;
  }

  fake_read-IsCfg : length h_source ≡ 6 → IsCfg (fake_read mc true st h_source)
  unfolding fake_read
  fake_read-IsCfg six = record {
    aoehdr = fake_read-IsAoe six;
    queuelen = omega arith;
    firmware = omega arith;
    cfg_len = omega arith;
  }

  respond-advert :
      (i : ℕ) (iface : Ifst) (s : World Disk)
      → IsStored dev
      → get_elem? st.intlist i ≡ some iface
      → respond mc st dev i
          (fake_read mc true st h_source)
          (some (reply_header mc dev (fake_read mc true st h_source).aoehdr))
          s
        ≡ done (dev, record s { sent = s.sent ++ (sent_advert i iface ∷ []) })
  unfolding respond begin_reply answer cfg_read send_reply xmit fake_read
  respond-advert i iface s v known = rw known (rw (with_string-done mc dev _ v) (rw known))

  access_fake :
      check_access mc st dev (fake_read mc true st h_source) ≡ refused st dev.cfgracl h_source
  unfolding check_access fake_read
  access_fake = refl

  head_fake :
      length h_source ≡ 6
      → (rest : List ℕ) × (load_aoe mc.host.order
            (store_cfg mc.host.order (fake_read mc true st h_source))
          ≡ done ((fake_read mc true st h_source).aoehdr, rest))
  unfolding store_cfg
  head_fake six = (
    _,
    load_aoe-store_aoe mc.host.order (fake_read mc true st h_source).aoehdr _ (fake_read-IsAoe six),
  )

  -- What is sent if the list refuses, and if it does not.
  abbrev pub adverts : Bool → ℕ → Ifst → List Sent
  adverts true i iface = []
  adverts false i iface = sent_advert i iface ∷ []

  module _ (w p : ℕ) (iface : Ifst) (six : length h_source ≡ 6) (v : IsStored dev)
      (known : get_elem? st.intlist (int_position dev.interface st.intlist) ≡ some iface) where
    abbrev i : ℕ
    i = int_position dev.interface st.intlist

    -- The heap with the made-up request.
    abbrev with_fake : Memory → Memory
    with_fake m =
        set_work w (some (fake_work mc true st dev p))
          (set_pkt p (some (fake_packet mc true st h_source)) m)

    fake-IsHeld :
        (m : Memory)
        → IsHeld (with_fake m) w p (fake_work mc true st dev p) (fake_packet mc true st h_source) 1
    fake-IsHeld m = record { at_w = write_self m.works _ w; at_p = write_self m.pkts _ p }

    with_fake-SameElse : (m : Memory) → SameElse w p m (with_fake m)
    with_fake-SameElse m = record {
      works = λ u h. write_ne m.works _ w u h;
      pkts = λ q h. write_ne m.pkts _ p q h;
    }

    -- The advertisement as a CFG request.
    process_fake :
        (denied : Bool) (m m' : Memory) (s : World Disk)
        → refused st dev.cfgracl h_source ≡ done denied
        → s.mem ≡ m
        → workdestroy (some w) m ≡ done m'
        → process_cfg mc true st dev w i (fake_read mc true st h_source) s
          ≡ done (
            dev,
            record s {
              mem = m';
              sent = s.sent ++ adverts denied (int_position dev.interface st.intlist) iface;
            },
          )
    unfolding process_cfg
    process_fake true m m' s checked e freed =
        rw (access_fake, checked, e, freed, append-nil s.sent)
    process_fake false m m' s checked e freed =
        rw (access_fake, checked, createpkt-some, respond-advert i iface s v known, e, freed)

    -- The device sends one frame to the address, its string and what its interface can carry, on its
    -- own interface, unless the list for reads of the string refuses the address: then it sends
    -- nothing. Either way it stays as it is, and the memory for the made-up request is free again.
    -- This supposes that `malloc` succeeds and that the device has an interface.
    pub dobcast_lem :
        (denied : Bool) (s : World Disk)
        → refused st dev.cfgracl h_source ≡ done denied
        → (m' : Memory) × (dobcast mc true st (some (w, p)) dev h_source s
            ≡ done (
              dev,
              record s {
                mem = m';
                sent = s.sent ++ adverts denied (int_position dev.interface st.intlist) iface;
              },
            ))
          × IsFreed m' w p
          × SameElse w p s.mem m'
    unfolding dobcast processwork handle_packet handle_command handle_cfg fake_read
    dobcast_lem denied s checked =
        let m1 = with_fake s.mem in
        let (m', freed, gone, same) = workdestroy-IsFreed (fake-IsHeld s.mem) in
        let read =
          load_cfg-store_cfg mc.host.order (fake_read mc true st h_source) (fake_read-IsCfg six) in
        let (rest, head) = head_fake six in
        (
          m',
          rw (write_self s.mem.works _ w, write_self s.mem.pkts _ p, head, read)
              (process_fake denied m1 m' (record s { mem = m1 }) checked refl freed),
          gone,
          SameElse-trans (with_fake-SameElse s.mem) same,
        )
