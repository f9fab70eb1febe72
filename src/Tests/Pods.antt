-- ===== src/Tests/Pods.antt =====
-- The pods of a function (src/gate/pods.go).
use swifty.Base.{◌≡◌, refl, some, [], ◌∷◌}
use swifty.Gate.Pods.{Pod, put, delete, assign, load_or, add_locked, del_locked, pods_find_all}
use swifty.Gate.Pods.Runs.{
  System, add_loads, add_locks, del_found, del_locks, loads, locks, finds, deletes, initial, Reach,
  start, next,
}
use swifty.Gate.Pods.Agreement.{Agrees, reach-Agrees}

abbrev first_pod : Pod
first_pod = record { uid = 7; version = 1 }

abbrev second_pod : Pod
second_pod = record { uid = 8; version = 2 }

-- The first pod is added and deleted, while the second waits for the set that dies.
abbrev emptied : System
emptied = del_locks 7 0 (
    del_found 7 (some 0)
      (add_locks 0 first_pod 0 (add_loads 1 second_pod (add_loads 0 first_pod initial))))

abbrev replaced : System
replaced = add_locks 1 second_pod 1 (add_locks 1 second_pod 0 emptied)

replaced_run : Reach replaced
unfolding put delete assign load_or add_locked del_locked add_loads add_locks del_found del_locks
replaced_run =
    next
      (next
        (next
          (next
            (next (next (next start (loads 0 first_pod refl)) (loads 1 second_pod refl))
              (locks 0 first_pod 0 refl))
            (finds 7 refl))
          (deletes 7 0 refl))
        (locks 1 second_pod 0 refl))
      (locks 1 second_pod 1 refl)

replaced_found : pods_find_all replaced.store ≡ some (second_pod ∷ [])
unfolding put delete assign load_or add_locked del_locked add_loads add_locks del_found del_locks
    pods_find_all
replaced_found = refl

reach-Agrees_example : Agrees replaced
reach-Agrees_example = reach-Agrees replaced_run
