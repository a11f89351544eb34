-- ===== src/Examples/Spools.antt =====
-- A queue that fills up while the uplink is down, and a post that is sent again.
use dock_neighbor_hub.Shared.{
  ◌≡◌, ◌⊎◌, refl, false, none, some, String, List, [], ◌∷◌, ◌++◌, map, Sublist, contains,
  to_ascii_lowercase, has_prefix, has_suffix,
}
use dock_neighbor_hub.GatewayWatch.{is_flood_shutoff, flood_shutoff_of}
use dock_neighbor_hub.Linktap.{Report}
use dock_neighbor_hub.Spool.{
  QueuedShelly, ShellyMove, arrive, begin, answer, sent, retry, enqueue_shelly, shelly_is_alarm,
  remove_reading, shed_one, SpoolMove, spooled, posted, answered, delivered, transient,
}
use dock_neighbor_hub.Spool.Shedding.{Taken, AllAlarms, enqueue_shelly-sheds}
use dock_neighbor_hub.Spool.Numbers.{
  Numbered, posts, spool_after, spooled_tags, tags_in, tag_of, posts-in_order, posts-Numbered,
}

abbrev report : String → QueuedShelly
report event = record {
  call = record { vid = "v"; event = event; device = "shelly"; k = "s"; extras = [] };
  queued_ms = 0;
  attempts = 0;
}

-- Two places: the reading goes, the alarms stay.
full_queue :
    (enqueue_shelly
      (report "flood.alarm" ∷ report "temperature.measurement" ∷ [])
      (report "flood.alarm")
      2).1
    ≡ some (report "temperature.measurement")
unfolding enqueue_shelly shelly_is_alarm remove_reading shed_one is_flood_shutoff flood_shutoff_of
    contains to_ascii_lowercase has_prefix has_suffix
full_queue = refl

enqueue_shelly-sheds_example :
    (let q = report "flood.alarm" ∷ report "temperature.measurement" ∷ [] in
      Taken
        (q ++ report "flood.alarm" ∷ [])
        (enqueue_shelly q (report "flood.alarm") 2).0
        (report "temperature.measurement")
      × ((shelly_is_alarm "temperature.measurement" ≡ false)
          ⊎ AllAlarms (q ++ report "flood.alarm" ∷ [])))
enqueue_shelly-sheds_example =
    enqueue_shelly-sheds (report "flood.alarm" ∷ report "temperature.measurement" ∷ [])
      (report "flood.alarm") 2 (report "temperature.measurement") full_queue

-- Newest first: the first report is tried again after another has come, and then acknowledged.
abbrev outage : List ShellyMove
outage =
    answer sent
    ∷ begin
    ∷ answer (retry "down")
    ∷ arrive (report "flood.alarm")
    ∷ begin
    ∷ arrive (report "temperature.measurement")
    ∷ []

abbrev reading : String → Report
reading event = record { device = "lt_A"; event = event; params = []; token = none }

abbrev night : List SpoolMove
night =
    answered delivered
    ∷ posted false
    ∷ spooled (reading "linktap.stop_failed")
    ∷ answered (transient "down")
    ∷ posted false
    ∷ spooled (reading "linktap.measurement")
    ∷ []

posts-in_order_example :
    Sublist (tags_in (posts night) ++ map tag_of (spool_after night).pending) (spooled_tags night)
posts-in_order_example = posts-in_order night

posts-Numbered_example :
    (let s = spool_after night in Numbered (posts night) s.batch_seq s.posting s.inflight)
posts-Numbered_example = posts-Numbered night
