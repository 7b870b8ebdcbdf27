-- ===== src/Ata/Transfer.antt =====
-- Reading back what was written.
use qaoed.Base.{
  ℕ, ◌+◌, ◌*◌, ◌<◌, ◌≤◌, ◌≡◌, refl, sym, ap, subst, ◌∙◌, List, [], ◌∷◌, ◌++◌, append-nil, some,
  true, false, arith, done, ◌>>=◌, get_elem?, length, take, drop, length-take, length-drop, ltb,
}
use qaoed.Wire.{AtaFrame, aoe_atahdr_size}
use qaoed.Conf.{Ifst, AoeDev}
use qaoed.Memory.{Memory, workdestroy}
use qaoed.Device.{Machine, ata, Sent, World, Setting, stamp, xmit}
use qaoed.Device.Reply.{createpkt-some}
use qaoed.Ata.{
  is_read, is_write, lba, read_at, file_read, write_at, file_write, read_reply, transfer_read,
  transfer_write, transfer, perform, check_access, process_ata,
}
use qaoed.Ata.Answer.{blank, read_buffer-take}

nil_of_length : (xs : List ℕ) → length xs ≡ 0 → xs ≡ []
nil_of_length [] h = refl
nil_of_length (x ∷ xs) h = absurd (omega arith)

module _ (mc : Machine) (st : Setting) (dev : AoeDev) (ifentry : ℕ) (iface : Ifst) where
  open mc use {Disk}

  -- A frame as it leaves on the interface.
  abbrev pub out : AtaFrame → ℕ → Sent
  out f len = record { ifentry = ifentry; frame = stamp iface.hwaddr (ata f); len = len }

  -- A full read gives the bytes read and no byte of fresh memory.
  read_reply-full :
      (len : ℕ) (reply : AtaFrame) (bs : List ℕ)
      → length bs ≡ len
      → 0 < len
      → read_reply mc len reply (some bs) ≡ record reply { payload = bs }
  unfolding read_reply
  read_reply-full len reply [] e h = absurd (omega arith)
  read_reply-full len reply (b ∷ bs) e h =
      let gone : drop (length (b ∷ bs)) (mc.stale len) ≡ [] =
        nil_of_length _
          (omega (arith, length-drop (length (b ∷ bs)) (mc.stale len), mc.stale_length len)) in
      rw (gone, append-nil)

  write_lem :
      (wk : ℕ) (q : AtaFrame) (s : World Disk) (d : Disk) (m : Memory)
      → get_elem? st.intlist ifentry ≡ some iface
      → check_access mc st dev q ≡ done false
      → is_write q.cmdstat ≡ true
      → q.nsect * 512 ≤ length q.payload
      → 0 < q.nsect
      → mc.lseek (lba q * 512) s.disk ≡ some d
      → (mc.write (take (q.nsect * 512) q.payload) d).0 ≡ some (q.nsect * 512)
      → workdestroy (some wk) s.mem ≡ done m
      → process_ata mc true st dev wk ifentry q s
        ≡ done (record {
          mem = m;
          disk = (mc.write (take (q.nsect * 512) q.payload) d).1;
          sent = s.sent ++ (out (blank mc st dev ifentry q) aoe_atahdr_size ∷ []);
        })
  unfolding process_ata perform transfer transfer_write file_write write_at xmit
  write_lem wk q s d m known ok writes enough some_sectors seek wrote freed =
      let not_read : is_read q.cmdstat ≡ false = ground arith in
      let positive : ltb 0 (q.nsect * 512) ≡ true = ground arith in
      rw (
        createpkt-some,
        ok,
        not_read,
        writes,
        read_buffer-take (q.nsect * 512) q.payload enough,
        seek,
        wrote,
        positive,
        known,
        freed,
      )

  read_lem :
      (wk : ℕ) (q : AtaFrame) (s : World Disk) (d : Disk) (m : Memory) (bs : List ℕ)
      → get_elem? st.intlist ifentry ≡ some iface
      → check_access mc st dev q ≡ done false
      → is_read q.cmdstat ≡ true
      → 0 < q.nsect
      → length bs ≡ q.nsect * 512
      → mc.lseek (lba q * 512) s.disk ≡ some d
      → (mc.read (q.nsect * 512) d).0 ≡ some bs
      → workdestroy (some wk) s.mem ≡ done m
      → process_ata mc true st dev wk ifentry q s
        ≡ done (record {
          mem = m;
          disk = (mc.read (q.nsect * 512) d).1;
          sent =
              s.sent
              ++ (out
                    (record (blank mc st dev ifentry q) { payload = bs })
                    (aoe_atahdr_size + q.nsect * 512)
                  ∷ []);
        })
  unfolding process_ata perform transfer transfer_read file_read read_at xmit
  read_lem wk q s d m bs known ok reads some_sectors full seek got freed = rw (
    createpkt-some,
    ok,
    reads,
    seek,
    got,
    read_reply-full (q.nsect * 512) (blank mc st dev ifentry q) bs full (omega arith),
    known,
    freed,
  )

  -- A write of some sectors that the file takes in full, and then a read of the same sectors: the
  -- second frame sent carries the bytes of the first request, no more and no less, with no error. Both
  -- requests must pass the access lists, bring their data along, and find a file that can seek.
  pub write-read :
      (wk vk : ℕ) (qw qr : AtaFrame) (s : World Disk) (d d' : Disk) (m m' : Memory)
      → get_elem? st.intlist ifentry ≡ some iface
      → check_access mc st dev qw ≡ done false
      → check_access mc st dev qr ≡ done false
      → is_write qw.cmdstat ≡ true
      → is_read qr.cmdstat ≡ true
      → lba qw ≡ lba qr
      → qw.nsect ≡ qr.nsect
      → 0 < qw.nsect
      → qw.nsect * 512 ≤ length qw.payload
      → mc.lseek (lba qw * 512) s.disk ≡ some d
      → (mc.write (take (qw.nsect * 512) qw.payload) d).0 ≡ some (qw.nsect * 512)
      → mc.lseek (lba qw * 512) (mc.write (take (qw.nsect * 512) qw.payload) d).1 ≡ some d'
      → workdestroy (some wk) s.mem ≡ done m
      → workdestroy (some vk) m ≡ done m'
      → (s' : World Disk) × ((process_ata mc true st dev wk ifentry qw s
            >>= process_ata mc true st dev vk ifentry qr)
          ≡ done s')
        × (s'.sent
            ≡ (s.sent ++ (out (blank mc st dev ifentry qw) aoe_atahdr_size ∷ []))
              ++ (out
                    (record (blank mc st dev ifentry qr) {
                      payload = take (qw.nsect * 512) qw.payload;
                    })
                    (aoe_atahdr_size + qr.nsect * 512)
                  ∷ []))
  write-read wk vk qw qr s d d' m m' known okw okr writes reads same_lba same_count some_sectors
        enough seek wrote seek' freed freed' =
      let bytes = take (qw.nsect * 512) qw.payload in
      let full : length bytes ≡ qw.nsect * 512 =
        omega (arith, length-take (qw.nsect * 512) qw.payload) in
      let back : (mc.read (qr.nsect * 512) d').0 ≡ some bytes =
        subst (λ n. (mc.read n d').0 ≡ some bytes) (full ∙ ap (λ n. n * 512) same_count)
          (mc.read-write (lba qw * 512) bytes s.disk d d' seek (wrote ∙ ap some (sym full))
            seek') in
      (
        record {
          mem = m';
          disk = (mc.read (qr.nsect * 512) d').1;
          sent =
              (s.sent ++ (out (blank mc st dev ifentry qw) aoe_atahdr_size ∷ []))
              ++ (out (record (blank mc st dev ifentry qr) { payload = bytes })
                    (aoe_atahdr_size + qr.nsect * 512)
                  ∷ []);
        },
        rw (write_lem wk qw s d m known okw writes enough some_sectors seek wrote freed) (
            read_lem vk qr
              (record {
                mem = m;
                disk = (mc.write bytes d).1;
                sent = s.sent ++ (out (blank mc st dev ifentry qw) aoe_atahdr_size ∷ []);
              })
              d' m' bytes known okr reads (omega arith) (full ∙ ap (λ n. n * 512) same_count)
              (subst (λ n. mc.lseek (n * 512) (mc.write bytes d).1 ≡ some d') same_lba seek') back
              freed'),
        refl,
      )
