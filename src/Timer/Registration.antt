-- ===== src/Timer/Registration.antt =====
-- What the module registers with the kernel: `vrr_init`, `vrr_exit` and `vrr_timer_tick` of
-- vrr_mod.c. What the calls of the kernel answer is given; an error -e is the number e.
use alpaca_vrr.Base.{
  ℕ, suc, ◌≡◌, ◌+◌, ◌*◌, ◌/◌, ◌%◌, ◌^◌, Bool, true, false, not, Option, none, some, List, ◌==◌,
  if◌then◌else◌, Run, done, oops, bind_run, null_deref, use_after_free,
}
use alpaca_vrr.World.{World}
use alpaca_vrr.Snapshot.{pset_state_init}
use alpaca_vrr.Timer.{vrr_node_init, boot}

pub record Answers : Type 0 where
  pub proto_register : ℕ
  pub kobject_create_and_add : Bool
  pub sysfs_create_group : ℕ
  pub sock_register : ℕ

-- The protocol, `vrr_obj` with its count of references, the family of sockets, the type of packets,
-- when the timer is due, and whether the periodic work waits to be run.
pub record Registered : Type 0 where
  pub proto : Bool
  pub vrr_obj : Option ℕ
  pub family : Bool
  pub packet_type : Bool
  pub timer : Option ℕ
  pub work : Bool

abbrev pub nothing : Registered
nothing = record {
  proto = false;
  vrr_obj = none;
  family = false;
  packet_type = false;
  timer = none;
  work = false;
}

abbrev pub enomem : ℕ
enomem = 12

-- The kernel's `kobject_put` on `vrr_obj`, by the count of references: nothing is done for a null
-- pointer, one reference less is kept, and the object is freed with the last, while the pointer stays.
pub record Kobjects : Type 0 where
  pub kobject_put : Option ℕ → Run (Option ℕ)
  pub kobject_put_null : kobject_put none ≡ done none
  pub kobject_put_freed : kobject_put (some 0) ≡ oops use_after_free
  pub kobject_put_counted : (n : ℕ) → kobject_put (some (suc n)) ≡ done (some n)

-- `jiffies + (VRR_HPKT_DELAY * HZ / 1000)`, an unsigned long of so many bits.
unfoldable pub hello_delay : ℕ → ℕ → ℕ → ℕ
hello_delay bits hz jiffies = (jiffies + 10000 * hz / 1000) % 2 ^ bits

module _ (bits hz : ℕ) where
  unfoldable pub vrr_timer_tick : ℕ → Registered → Registered
  unfolding hello_delay
  vrr_timer_tick jiffies r = record r { work = true; timer = some (hello_delay bits hz jiffies) }

module _ (kernel : Kobjects) (bits hz : ℕ) where
  -- The part of `vrr_init` behind the structures.
  unfoldable pub register : Answers → ℕ → Registered → Run (ℕ × Registered)
  unfolding hello_delay
  register k jiffies r =
      if not (k.proto_register == 0)
      then done (k.proto_register, r)
      else if not k.kobject_create_and_add
      then done (enomem, record r { proto = true })
      else bind_run
          (if not (k.sysfs_create_group == 0) then kernel.kobject_put (some 1) else done (some 1))
          λ obj.
            if not (k.sock_register == 0)
            then done (k.sock_register, record r { proto = true; vrr_obj = obj })
            else done (
              0,
              record r {
                proto = true;
                vrr_obj = obj;
                family = true;
                packet_type = true;
                timer = some (hello_delay bits hz jiffies);
              },
            )

  -- The result of `vrr_node_init` is not looked at; without a node the read of its identifier
  -- faults. Nor is that of `pset_state_init`, for which there is memory or not: there is no world that
  -- can be worked with where the snapshot is a null pointer. `draws` random words and `allocs`
  -- allocations were made.
  unfoldable pub vrr_init :
      (ℕ → Bool)
      → Bool
      → ℕ
      → List (List ℕ)
      → ℕ
      → ℕ
      → Answers
      → ℕ
      → Registered
      → Run (ℕ × Registered × Option World)
  vrr_init mem memory id names allocs draws k jiffies r =
      bind_run (vrr_node_init mem id names) λ made. elim made [
        | none ↦ oops null_deref
        | some vrr ↦ bind_run (register k jiffies r) λ (err, r'). done (
          err,
          r',
          elim (pset_state_init memory) [ none ↦ none | some s ↦ some (boot vrr allocs draws) ],
        )
      ]

unfoldable pub vrr_exit : Kobjects → Registered → Run Registered
vrr_exit kernel r = bind_run (kernel.kobject_put r.vrr_obj) λ obj.
    done
      (record r { family = false; packet_type = false; timer = none; vrr_obj = obj; proto = false })
