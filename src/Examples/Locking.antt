-- ===== src/Examples/Locking.antt =====
-- Goroutines of cmd/home-automation-server at the lock of the web sockets.
use mqtt_home_automation.Base.{◌≡◌, ◌≤◌, ◌⊎◌, refl, true, false, List, [], ◌∷◌, All}
use mqtt_home_automation.Home.Locks.{
  of_status, of_log, Point, outside, wanting, pending, adding, added, before_greeting, deleting,
  sending, greeting, System, first, later, Reach, come, call, lock, here, next, reads, writes,
  announces,
}
use mqtt_home_automation.Home.Locks.Exclusion.{count, one, IsLocked, IsOut, Reach-alone}
use mqtt_home_automation.Home.Socket.{add_client}
use mqtt_home_automation.Home.Locks.Tallies.{IsTallied, holds, greets}
use mqtt_home_automation.Home.Locks.Progress.{is_new, GoesOn}
use mqtt_home_automation.Home.Locks.Rests.{Continues, stay, continue, steps_left, Reach-rests}
use mqtt_home_automation.Home.Locks.Races.{
  with_broadcast, with_greeting, broadcasts_race, greeting_races,
}

abbrev idle : System
idle = record {
  clients = 7 ∷ [];
  readers = 0;
  writer = false;
  held = λ k. false;
  greeters = λ k. 0;
  threads = outside ∷ outside ∷ [];
}

idle-IsLocked : IsLocked idle
unfolding count one reads announces
idle-IsLocked = record { all_readers = refl; all_writers = refl; alone = λ e. refl }

-- A new connection takes the lock.
abbrev joining : System
joining = record idle { writer = true; threads = outside ∷ adding 8 ∷ [] }

joins : Reach idle joining
joins =
    next
      (next
        (next here (
          come idle (outside ∷ wanting true 8 ∷ []) 8 true
            (later outside (first outside (wanting true 8) []))))
        (call (record idle { threads = outside ∷ wanting true 8 ∷ [] })
          (outside ∷ pending true 8 ∷ []) 8 true refl
          (later outside (first (wanting true 8) (pending true 8) []))))
      (lock (record idle { writer = true; threads = outside ∷ pending true 8 ∷ [] })
        (outside ∷ adding 8 ∷ []) 8 true refl
        (later outside (first (pending true 8) (adding 8) [])))

is_writing : writes (adding 8) ≡ true
unfolding writes
is_writing = refl

Reach-alone_example : All IsOut (outside ∷ outside ∷ [])
Reach-alone_example =
    Reach-alone idle-IsLocked joins (later outside (first (adding 8) outside [])) is_writing

-- Both broadcasts find the connection gone.
abbrev one_at_delete : List Point
one_at_delete = deleting of_status 7 [] ∷ outside ∷ []

abbrev both_at_delete : List Point
both_at_delete = deleting of_status 7 [] ∷ deleting of_log 7 [] ∷ []

broadcasts_race_example :
    Reach idle (with_broadcast of_log both_at_delete (with_broadcast of_status one_at_delete idle))
broadcasts_race_example =
    broadcasts_race idle true 7 [] one_at_delete both_at_delete refl refl refl refl refl refl
      (first outside (deleting of_status 7 []) (outside ∷ []))
      (later (deleting of_status 7 []) (first outside (deleting of_log 7 []) []))

-- A page connects, and is written the statuses, when a message comes.
abbrev empty : System
empty = record idle { clients = [] }

abbrev one_greeting : List Point
one_greeting = greeting of_status 7 ∷ outside ∷ []

abbrev both_writing : List Point
both_writing = greeting of_status 7 ∷ sending of_log 7 [] ∷ []

greeting_races_example :
    Reach empty (with_broadcast of_log both_writing (with_greeting 7 one_greeting empty))
greeting_races_example =
    greeting_races empty 7 one_greeting both_writing refl refl refl refl refl refl
      (first outside (greeting of_status 7) (outside ∷ []))
      (later (greeting of_status 7) (first outside (sending of_log 7 []) []))

idle-IsTallied : IsTallied idle
unfolding count one holds greets
idle-IsTallied = record { holders = λ j. refl; readers = λ j. refl }

-- The page that joins is added.
abbrev joined_list : List Point
joined_list = outside ∷ before_greeting of_status 8 ∷ []

abbrev joined : System
joined = record joining { clients = add_client 8 (7 ∷ []); writer = false; threads = joined_list }

goes_on : Continues joining 1 joined
unfolding is_new
goes_on =
    continue stay
      (added joining joined_list 8
        (later outside (first (adding 8) (before_greeting of_status 8) [])))
      refl

Reach-rests_example :
    (1 ≤ steps_left joining) × (All (λ p. p ≡ outside) joined_list ⊎ GoesOn joined)
Reach-rests_example = Reach-rests idle-IsLocked idle-IsTallied joins goes_on
