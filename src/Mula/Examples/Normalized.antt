-- ===== src/Mula/Examples/Normalized.antt =====
-- A raw file with two mime types, and the normalizers for it.
use nl_kat_coordination.Prelude.{
  ◌≤◌, String, List, [], ◌∷◌, any_of, count_of, Option, none, some, Bool, true, false, ◌&&◌, ◌≡◌,
  refl, Memᴰ, str_eq,
}
use nl_kat_coordination.Mula.Models.{NormalizerTask, normalizer_item, normalizer_hash}
use nl_kat_coordination.Mula.Database.{ok, unique_active}
use nl_kat_coordination.Mula.Boefje.{Plugin}
use nl_kat_coordination.Mula.Scheduler.{Scheduler}
use nl_kat_coordination.Mula.Rankers.{normalizer_rank}
use nl_kat_coordination.Mula.Normalizers
use nl_kat_coordination.Mula.Normalizers.{
  has_normalizer_task_started_running, RawData, has_raw_data_deschedule, has_raw_data_errors,
  process_raw_data, normalizer_tasks, push_normalizer_task,
}
use nl_kat_coordination.Mula.Normalizers.Submitted.{is_of, process_raw_data_iff}
use nl_kat_coordination.Mula.Queue.Examples.{hasher, boefje, queue, one_queued}
use nl_kat_coordination.Mula.Examples.{plugin, env, program}

abbrev normalizer : String → Bool → Plugin
normalizer id enabled = record plugin { id = id; enabled = enabled }

-- Both mime types list the normalizer "nmap"; "old" is disabled.
abbrev catalogue : Option String → List Plugin
catalogue none = []
catalogue (some m) = normalizer "nmap" true ∷ normalizer m (str_eq m "nmap") ∷ []

abbrev is_enabled : String → Bool
is_enabled i = str_eq i "nmap"

abbrev raw : RawData
raw = record {
  boefje_meta = record {
    id = 7;
    boefje = boefje;
    input_ooi = some "Host|a";
    organization = "org-a";
    started_at = some 10;
    ended_at = some 20;
  };
  mime_types = some "text" ∷ some "xml" ∷ [];
}

abbrev task_of_nmap : NormalizerTask
task_of_nmap = record { id = 9; normalizer_id = "nmap"; boefje_meta = raw.boefje_meta }

listed :
    (p : Plugin) (m : String)
    → str_eq m "nmap" ≡ false
    → Memᴰ p (catalogue (some m))
    → p.enabled ≡ is_enabled p.id
listed p m h (Memᴰ.head e) = rw e refl
listed p m h (Memᴰ.tail (Memᴰ.head e)) = rw e refl
listed p m h (Memᴰ.tail (Memᴰ.tail n)) = elim n [ ]

answers :
    (m : Option String)
    → Memᴰ m raw.mime_types
    → (ok (catalogue m) ≡ ok (catalogue m))
      × ((p : Plugin) → Memᴰ p (catalogue m) → p.enabled ≡ is_enabled p.id)
answers m (Memᴰ.head e) = rw e (refl, λ p n. listed p "text" refl n)
answers m (Memᴰ.tail (Memᴰ.head e)) = rw e (refl, λ p n. listed p "xml" refl n)
answers m (Memᴰ.tail (Memᴰ.tail n)) = elim n [ ]

process_raw_data_example :
    (tasks : List NormalizerTask) × (process_raw_data hasher
        (λ o m. ok (catalogue m))
        (λ p. 9)
        (some record { raw_data = raw; organization = "org-a" })
        one_queued
      ≡ (ok tasks, one_queued))
    × ((i : String)
        → (any_of (λ (t : NormalizerTask). str_eq t.normalizer_id i) tasks
            ≡ (is_enabled i && any_of (λ m. any_of (is_of i) (catalogue m)) raw.mime_types))
          × (count_of (λ (t : NormalizerTask). str_eq t.normalizer_id i) tasks ≤ 1))
unfolding has_raw_data_deschedule has_raw_data_errors
process_raw_data_example =
    process_raw_data_iff is_enabled hasher (λ o m. ok (catalogue m)) (λ p. 9) "org-a" catalogue raw
      one_queued refl refl answers

abbrev normalizer_scheduler : Scheduler
normalizer_scheduler = record {
  scheduler_id = "normalizer";
  create_schedule = false;
  auto_calculate_deadline = false;
  queue = record queue { pq_id = "normalizer"; item_type = normalizer_item };
}

pushed_test :
    (push_normalizer_task hasher normalizer_scheduler env task_of_nmap "org-a" false one_queued).0
    ≡ ok tt
unfolding program push_normalizer_task Normalizers.push_item_to_queue
    has_normalizer_task_started_running normalizer_hash normalizer_rank unique_active
pushed_test = refl
