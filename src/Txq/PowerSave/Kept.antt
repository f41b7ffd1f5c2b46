-- ===== src/Txq/PowerSave/Kept.antt =====
-- Power save and confirmations keep the lists of the hardware queues.
use aic8800_linux_driver.Common.{
  ℕ, ◌+◌, ◌-◌, ◌<◌, ◌≡◌, refl, sym, ◌∙◌, Bool, true, false, ◌||◌, not, List, [], ◌∷◌, length,
  length-set, get_or, All, ◌==◌, if◌then◌else◌, arith, ltb, u8_mod, ◌%◌,
}
use aic8800_linux_driver.Txq.{
  Txq, Hw, Sta, Event, emit, set_traffic_status, tasklet_schedule, txq_at, set_txq, sta_at, sta_ps,
  is_multicast_sta, rwnx_txq_sta_get,
}
use aic8800_linux_driver.Txq.Sched.{each, nb_txq, rwnx_txq_sta_start}
use aic8800_linux_driver.Txq.Sched.Links.{Linked, add-Linked, add-length}
use aic8800_linux_driver.Txq.Sched.Ops.{if_Linked, each-Linked, sta_start-Linked, sta_stop-Linked}
use aic8800_linux_driver.Txq.Push.{bump, set_sta}
use aic8800_linux_driver.Txq.Process.Kept.{written_Linked}
use aic8800_linux_driver.Txq.PowerSave.{
  ps_enable, ps_disable, rwnx_ps_bh_enable, no_limit, grant, allowed, dispatch,
}

pub either_Linked :
    (b : Bool) (x y : Hw) → (b ≡ true → Linked x) → Linked y → Linked (if b then x else y)
either_Linked true x y p q = p refl
either_Linked false x y p q = q

pub sta_Linked : (h : Hw) (s : ℕ) (v : Sta) → Linked h → Linked (set_sta h s v)
sta_Linked h s v w = record { lists = w.lists; homes = w.homes }

pub emit-Linked : (h : Hw) (e : Event) → Linked h → Linked (emit e h)
emit-Linked h e w = record { lists = w.lists; homes = w.homes }

pub no_limit-Linked : (h : Hw) (i : ℕ) → Linked h → Linked (no_limit h i)
no_limit-Linked h i w =
    written_Linked h (no_limit h i) i (record (txq_at h i) { push_limit = 0 }) refl refl refl refl w

ps_enable-Linked : (h : Hw) (s : ℕ) → Linked h → Linked (ps_enable h s)
unfolding ps_enable
ps_enable-Linked h s w =
    let x = sta_at h s in
    let v : Sta = record x { ps_active = true; sp_cnt = 0 ∷ 0 ∷ [] } in
    let p = sta_stop-Linked (set_sta h s v) s sta_ps (sta_Linked h s v w) in
    record { lists = p.lists; homes = p.homes }

ps_disable-Linked :
    (h : Hw) (s : ℕ)
    → (is_multicast_sta h.old_ic s ≡ true → (txq_at h (rwnx_txq_sta_get h s 0)).hwq ≡ 1)
    → Linked h
    → Linked (ps_disable h s)
unfolding ps_disable
ps_disable-Linked h s e w =
    let v : Sta = record (sta_at h s) { ps_active = false } in
    let a = set_sta h s v in
    let base = rwnx_txq_sta_get h s 0 in
    let t : Txq = record (txq_at a base) { hwq = 1; push_limit = 0 } in
    let m = is_multicast_sta h.old_ic s in
    let b = if m then set_txq a base t else each no_limit base (nb_txq h s) a in
    let k : Linked b =
      either_Linked m (set_txq a base t) (each no_limit base (nb_txq h s) a)
        (λ y.
          written_Linked a (set_txq a base t) base t refl refl refl (sym (e y))
            (sta_Linked h s v w))
        (each-Linked no_limit base (nb_txq h s) a no_limit-Linked (sta_Linked h s v w)) in
    let c = rwnx_txq_sta_start b s sta_ps in
    let p = sta_start-Linked b s sta_ps k in
    emit-Linked
      (if get_or (sta_at c s).pkt_ready 0 0 == 0
        then c
        else emit (set_traffic_status s false false) c)
      tasklet_schedule
      (if_Linked (get_or (sta_at c s).pkt_ready 0 0 == 0) c
        (emit (set_traffic_status s false false) c) p
        (emit-Linked c (set_traffic_status s false false) p))

-- A multicast queue stays in the hardware queue 1.
pub ps_bh_enable-Linked :
    (h : Hw) (s : ℕ) (enable : Bool)
    → (is_multicast_sta h.old_ic s ≡ true → (txq_at h (rwnx_txq_sta_get h s 0)).hwq ≡ 1)
    → Linked h
    → Linked (rwnx_ps_bh_enable h s enable)
unfolding rwnx_ps_bh_enable
ps_bh_enable-Linked h s true e w = ps_enable-Linked h s w
ps_bh_enable-Linked h s false e w = ps_disable-Linked h s e w

pub grant-Linked : (h : Hw) (s ps i n : ℕ) → i < length h.txq → Linked h → Linked (grant h s ps i n)
grant-Linked h s ps i n l w =
    let t : Txq = record (txq_at h i) { push_limit = n % u8_mod } in
    let a = set_txq h i t in
    let v : Sta = record (sta_at a s) { sp_cnt = bump n (sta_at a s).sp_cnt ps } in
    add-Linked (set_sta a s v) i (omega (arith, length-set h.txq i t, l))
      (sta_Linked a s v (written_Linked h a i t refl refl refl refl w))

pub if_length :
    (b : Bool) (x y : Hw) (n : ℕ)
    → length x.txq ≡ n
    → length y.txq ≡ n
    → length (if b then x else y).txq ≡ n
if_length true x y n p q = p
if_length false x y n p q = q

length-grant : (h : Hw) (s ps i n : ℕ) → length (grant h s ps i n).txq ≡ length h.txq
length-grant h s ps i n =
    let t : Txq = record (txq_at h i) { push_limit = n % u8_mod } in
    let a = set_txq h i t in
    let v : Sta = record (sta_at a s) { sp_cnt = bump n (sta_at a s).sp_cnt ps } in
    add-length (set_sta a s v) i ∙ length-set h.txq i t

-- The classes of traffic that a dispatch goes through lie in the array.
pub dispatch-Linked :
    (h : Hw) (s ps base req : ℕ) (tids : List ℕ) (n : ℕ)
    → All (λ tid. base + tid < n) tids
    → length h.txq ≡ n
    → Linked h
    → Linked (dispatch h s ps base req tids)
unfolding dispatch
dispatch-Linked h s ps base req [] n a e w = w
dispatch-Linked h s ps base req (tid ∷ tids) n a e w =
    let i = base + tid in
    let t = txq_at h i in
    let m = allowed t in
    let skip = not (t.ps_id == ps) || (m == 0) in
    let a1 = if skip then h else grant h s ps i m in
    let r1 = if skip then req else req - m in
    let g = grant-Linked h s ps i m (omega (arith, e, a.0)) w in
    let next = dispatch a1 s ps base r1 tids in
    let k =
      dispatch-Linked a1 s ps base r1 tids n a.1
        (if_length skip h (grant h s ps i m) n e (length-grant h s ps i m ∙ e))
        (if_Linked skip h (grant h s ps i m) w g) in
    if_Linked skip next (if ltb m req then next else grant h s ps i req) k (
      if_Linked (ltb m req) next (grant h s ps i req) k
        (grant-Linked h s ps i req (omega (arith, e, a.0)) w))
