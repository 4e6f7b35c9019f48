-- ===== src/Automation/Spent/Once.antt =====
-- A second resolution of a reservation reads nothing.
use netbox_openbao.Prelude.{
  Bool, true, false, Option, none, some, ◌≡◌, ◌⊎◌, refl, sym, subst, ap, ◌∙◌, All, if◌then◌else◌,
  inl, inr,
}
use netbox_openbao.Errors.{Exn, automation_denied}
use netbox_openbao.Exec.{Outcome, ok, raise}
use netbox_openbao.Exec.Keeps.{Keeps}
use netbox_openbao.Models.{User, Receipt}
use netbox_openbao.World.{World, Env}
use netbox_openbao.Automation.Authority.{Params, Authority, Surroundings}
use netbox_openbao.Automation.Delivery.{
  Key, spent, key_of, reserve, refuse, Resolution, deliver, finish, reserved, authorized,
  resolve_automation,
}
use netbox_openbao.Automation.Spent.Lasting.{Leaves, Lasting, lock_wait-Lasting, write_db-Lasting}
use netbox_openbao.Automation.Spent.Parts.{refuse-Keeps, deliver-Lasting}
use netbox_openbao.Automation.Spent.Reserved.{
  kept-through, Idle, lock_wait-Idle, write_db-Idle, reserve-ok, reserve-Idle,
}

-- A result, or the one refusal.
abbrev pub Closed : Outcome Resolution → Type 0
Closed (ok r) = Unit
Closed (raise e) = e ≡ automation_denied

module _ {V : Type 0} (env : Env V) (around : Surroundings V) (user : User) (params : Params) where
  -- How a resolution for one authority ends.
  refuse-denied :
      (a : Option Authority) (r : Option Receipt) (w : World V)
      → (refuse env around user params a r w).0 ≡ raise automation_denied
  unfolding refuse
  refuse-denied a r w = refl

  refuse-Closed :
      (a : Option Authority) (r : Option Receipt) (w : World V)
      → Closed (refuse env around user params a r w).0
  unfolding refuse
  refuse-Closed a r w = refl

  refuse-Lasting :
      (k : Key) (a : Option Authority) (r : Option Receipt)
      → Keeps (Lasting k) (refuse env around user params a r)
  refuse-Lasting k =
      refuse-Keeps env around user params (Lasting k) (lock_wait-Lasting k) (write_db-Lasting k)

  refuse-Idle :
      (k : Key) (v : V) (a : Option Authority) (r : Option Receipt)
      → Keeps (Idle k v) (refuse env around user params a r)
  refuse-Idle k v =
      refuse-Keeps env around user params (Idle k v) (lock_wait-Idle k v) (write_db-Idle k v)

  finish-Lasting :
      (k : Key) (a : Authority) (receipt : Receipt) (r : Outcome Resolution) (w : World V)
      → Lasting k w
      → Lasting k (finish env around user params a receipt r w).1
  unfolding finish
  finish-Lasting k a receipt (ok x) w h = h
  finish-Lasting k a receipt (raise e) w h = (refuse-Lasting k (some a) (some receipt)).at w h

  -- The answer is the refusal, and the store was not used.
  pub record Untouched (v : V) (end : Outcome Resolution × World V) : Type 0 where
    pub answer_is : end.0 ≡ raise automation_denied
    pub vault_is : end.1.vault ≡ v

  refuse-Untouched :
      (k : Key) (v : V) (a : Option Authority) (r : Option Receipt) (w : World V)
      → Idle k v w
      → Untouched v (refuse env around user params a r w)
  refuse-Untouched k v a r w idle = record {
    answer_is = refuse-denied a r w;
    vault_is = ((refuse-Idle k v a r).at w idle).vault;
  }

  -- Behind a reservation that was made, whatever the delivery does.
  delivered-Lasting :
      (k : Key) (a : Authority) (receipt : Receipt) (w : World V)
      → Lasting k w
      → Lasting k (reserved env around user params a (ok receipt) w).1
  unfolding reserved
  delivered-Lasting k a receipt w h =
      finish-Lasting k a receipt (deliver env around user params receipt w).0
        (deliver env around user params receipt w).1
        ((deliver-Lasting env around user params k receipt).at w h)

  reserved-Untouched :
      (k : Key) (v : V) (a : Authority) (e : Exn) (w : World V)
      → Idle k v w
      → Untouched v (reserved env around user params a (raise e) w)
  unfolding reserved
  reserved-Untouched k v a e w idle = refuse-Untouched k v (some a) none w idle

  -- With no receipt before, or with one.
  reserved-cases :
      (a : Authority) (v : V) (w w1 : World V) (r : Outcome Receipt)
      → reserve env around user params a w ≡ (r, w1)
      → Idle (key_of env around user params a) v w
      → (Untouched v (reserved env around user params a r w1)
          ⊎ Lasting (key_of env around user params a) (reserved env around user params a r w1).1)
        × (Lasting (key_of env around user params a) w
            → Untouched v (reserved env around user params a r w1))
  reserved-cases a v w w1 (raise e) at idle =
      let after : Idle (key_of env around user params a) v w1 =
        kept-through (reserve env around user params a) w w1 (raise e)
          (reserve-Idle env around user params a (key_of env around user params a) v) idle at in
      let end = reserved-Untouched (key_of env around user params a) v a e w1 after in
      (inl end, λ _. end)
  reserved-cases a v w w1 (ok receipt) at idle =
      let (lasting, fresh) = reserve-ok env around user params a v w w1 receipt at idle in
      (
        inr (delivered-Lasting (key_of env around user params a) a receipt w1 lasting),
        λ spent_before. absurd (fresh spent_before),
      )

  finish-Closed :
      (a : Authority) (receipt : Receipt) (r : Outcome Resolution) (w : World V)
      → Closed (finish env around user params a receipt r w).0
  unfolding finish
  finish-Closed a receipt (ok x) w = tt
  finish-Closed a receipt (raise e) w = refuse-Closed (some a) (some receipt) w

  reserved-Closed :
      (a : Authority) (r : Outcome Receipt) (w : World V)
      → Closed (reserved env around user params a r w).0
  unfolding reserved
  reserved-Closed a (raise e) w = refuse-Closed (some a) none w
  reserved-Closed a (ok receipt) w =
      finish-Closed a receipt (deliver env around user params receipt w).0
        (deliver env around user params receipt w).1

  authorized-Closed :
      (o : Option Authority) (w : World V) → Closed (authorized env around user params o w).0
  unfolding authorized
  authorized-Closed none w = refuse-Closed none none w
  authorized-Closed (some a) w =
      reserved-Closed a (reserve env around user params a w).0
        (reserve env around user params a w).1

  resolve_automation-authorized :
      (a : Authority) (w : World V)
      → w.in_atomic ≡ false
      → around.authorize w params (some user) ≡ some a
      → resolve_automation env around user params w
        ≡ reserved env around user params a
            (reserve env around user params a w).0
            (reserve env around user params a w).1
  unfolding resolve_automation authorized
  resolve_automation-authorized a w outside allowed =
      ap
        (λ b.
          if b
          then (raise automation_denied, w)
          else authorized env around user params (around.authorize w params (some user)) w)
        outside
      ∙ ap (λ o. authorized env around user params o w) allowed

  -- A dispatch that is authorized outside a transaction, when the transactions that interleave leave
  -- the receipts of its key alone, is either refused without the secret store having been used, or a
  -- committed receipt of its key stands at the end. When such a receipt stands at the start, it is
  -- refused without the secret store having been used.
  pub resolve_automation-once :
      (a : Authority) (w : World V)
      → w.in_atomic ≡ false
      → around.authorize w params (some user) ≡ some a
      → All (Leaves (key_of env around user params a)) w.others
      → (Untouched w.vault (resolve_automation env around user params w)
          ⊎ Lasting
              (key_of env around user params a)
              (resolve_automation env around user params w).1)
        × (spent (key_of env around user params a) w.db ≡ true
            → spent (key_of env around user params a) w.base ≡ true
            → Untouched w.vault (resolve_automation env around user params w))
  resolve_automation-once a w outside allowed leave =
      subst Once (sym (resolve_automation-authorized a w outside allowed)) (
        all_cases.0,
        λ seen kept. all_cases.1 (record { seen = seen; kept = kept; others = leave }),
      )
    where
      k : Key
      k = key_of env around user params a

      Once : Outcome Resolution × World V → Type 0
      Once end =
          (Untouched w.vault end ⊎ Lasting k end.1)
          × (spent k w.db ≡ true → spent k w.base ≡ true → Untouched w.vault end)

      all_cases :
          (Untouched w.vault (
              reserved env around user params a
                (reserve env around user params a w).0
                (reserve env around user params a w).1)
            ⊎ Lasting k
                (reserved env around user params a
                  (reserve env around user params a w).0
                  (reserve env around user params a w).1).1)
          × (Lasting k w
              → Untouched w.vault (
                  reserved env around user params a
                    (reserve env around user params a w).0
                    (reserve env around user params a w).1))
      all_cases =
          reserved-cases a w.vault w (reserve env around user params a w).1
            (reserve env around user params a w).0 refl (record { vault = refl; others = leave })

  -- A resolution answers with its result or with the one refusal: no other exception leaves it.
  pub resolve_automation-Closed :
      (w : World V) → Closed (resolve_automation env around user params w).0
  unfolding resolve_automation
  resolve_automation-Closed w = go w.in_atomic
    where
      go :
          (b : Bool)
          → Closed
              (if b
                then (raise automation_denied, w)
                else authorized env around user params (around.authorize w params (some user)) w).0
      go true = refl
      go false = authorized-Closed (around.authorize w params (some user)) w
