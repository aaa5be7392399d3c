-- ===== src/Checks/Life.antt =====
-- Examples of the module's life in the kernel.
use alpaca_vrr.Base.{
  ℕ, suc, zero, ◌≡◌, refl, Option, none, some, true, Run, done, oops, [], ◌∷◌, use_after_free,
}
use alpaca_vrr.Base.{List, null_deref, leb, false}
use alpaca_vrr.Node.{VrrNode}
use alpaca_vrr.Timer.{lo, vrr_node_init, collect_devices}
use alpaca_vrr.Timer.Registration.{Answers, Kobjects, hello_delay}
use alpaca_vrr.Timer.Life.{life, life-left_over}

abbrev put : Option ℕ → Run (Option ℕ)
put none = done none
put (some zero) = oops use_after_free
put (some (suc n)) = done (some n)

abbrev kobjects : Kobjects
kobjects = record {
  kobject_put = put;
  kobject_put_null = refl;
  kobject_put_freed = refl;
  kobject_put_counted = λ n. refl;
}

-- The attributes cannot be made, all else succeeds.
abbrev without_group : Answers
without_group = record {
  proto_register = 0;
  kobject_create_and_add = true;
  sysfs_create_group = 12;
  sock_register = 0;
}

delay_wraps : hello_delay 32 100 4294967000 ≡ 704
unfolding hello_delay
delay_wraps = refl

abbrev wlan0 : List ℕ
wlan0 = b'w' ∷ b'l' ∷ b'a' ∷ b'n' ∷ b'0' ∷ []

abbrev node : VrrNode
node = record {
  id = 7;
  vset_size = 4;
  rtable_value = 0;
  version = 1;
  active = 0;
  timeout = 0;
  dev_list = wlan0 ∷ [];
}

made : vrr_node_init (λ n. leb n 2) 7 (lo ∷ wlan0 ∷ []) ≡ done (some node)
unfolding vrr_node_init collect_devices
made = refl

-- A second interface finds no memory.
not_made : vrr_node_init (λ n. leb n 2) 7 (lo ∷ wlan0 ∷ wlan0 ∷ []) ≡ oops null_deref
unfolding vrr_node_init collect_devices
not_made = refl

life-left_over_example :
    life kobjects 32 100 (λ n. leb n 2) false 7 (lo ∷ wlan0 ∷ []) 0 0 without_group 0 (1000 ∷ [])
    ≡ oops use_after_free
life-left_over_example =
    life-left_over kobjects 32 100 (λ n. leb n 2) false 7 (lo ∷ wlan0 ∷ []) 0 0 without_group 0
      (1000 ∷ []) node made
