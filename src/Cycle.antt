-- ===== src/Cycle.antt =====
-- internal/cycle/detector.go: a detector of repeated prompts for each session, and the registry that
-- keeps the detectors of the sessions used last. A detector is written back under its session.
pub mod Sessions
pub mod Detection
use llmsentinel_router.Prelude.{
  ℕ, zero, suc, ◌+◌, ◌-◌, String, ◌==◌, Bool, true, false, ◌||◌, Option, none, some, List, [], ◌∷◌,
  ◌++◌, if◌then◌else◌, leb, ltb, length, drop,
}
use Prim.Native.String.{◌++◌ as join}
use llmsentinel_router.Prelude.Int.{ℤ, pos, pos_part, leb_ℤ, ltb_ℤ}
use llmsentinel_router.Prelude.Map.{Map, lookup, insert, delete}
use llmsentinel_router.Semantic.Hash.{Digest, sim_hash, hamming_distance}

pub record Detector : Type 0 where
  pub session_id : String
  pub threshold : ℤ
  pub max_hashes : ℤ
  pub recent_hashes : List ℕ
  pub last_response : String

unfoldable pub new_detector : String → ℤ → ℤ → Detector
new_detector session_id threshold max_hashes = record {
  session_id = session_id;
  threshold = if leb_ℤ threshold (pos 0) then pos 3 else threshold;
  max_hashes = if leb_ℤ max_hashes (pos 0) then pos 50 else max_hashes;
  recent_hashes = [];
  last_response = "";
}

-- prompt + "\n" + response
abbrev pub exchange : String → String → String
exchange prompt response = join prompt (join "\n" response)

-- The loop of DetectPrompt.
unfoldable pub any_close : ℕ → ℤ → List ℕ → Bool
any_close current threshold [] = false
any_close current threshold (previous ∷ rest) =
    leb_ℤ (pos (hamming_distance current previous)) threshold || any_close current threshold rest

unfoldable pub detect_prompt : Digest → String → Detector → Bool
unfolding any_close
detect_prompt g prompt d =
    any_close (sim_hash g (exchange prompt d.last_response)) d.threshold d.recent_hashes

-- The last `max_hashes` of the hashes; `New` makes the bound positive.
unfoldable pub trimmed : ℤ → List ℕ → List ℕ
trimmed max_hashes hashes =
    if ltb_ℤ max_hashes (pos (length hashes))
    then drop (length hashes - pos_part max_hashes) hashes
    else hashes

unfoldable pub add : Digest → String → String → Detector → Detector
unfolding trimmed
add g prompt response d = record d {
  recent_hashes =
      trimmed d.max_hashes (d.recent_hashes ++ sim_hash g (exchange prompt response) ∷ []);
  last_response = response;
}

unfoldable pub clear_last_response : Detector → Detector
clear_last_response d = record d { last_response = "" }

pub record Registry : Type 0 where
  pub max_size : ℤ
  pub threshold : ℤ
  pub max_hashes : ℤ
  pub detectors : Map Detector
  pub order : List String

unfoldable pub new_registry : ℤ → ℤ → ℤ → Registry
new_registry max_size threshold max_hashes = record {
  max_size = if leb_ℤ max_size (pos 0) then pos 1000 else max_size;
  threshold = if leb_ℤ threshold (pos 0) then pos 3 else threshold;
  max_hashes = if leb_ℤ max_hashes (pos 0) then pos 50 else max_hashes;
  detectors = [];
  order = [];
}

-- The first occurrence taken out.
unfoldable pub remove_first : String → List String → List String
remove_first id [] = []
remove_first id (x ∷ xs) = if x == id then xs else x ∷ remove_first id xs

unfoldable pub occurs : String → List String → Bool
occurs id [] = false
occurs id (x ∷ xs) = x == id || occurs id xs

-- `copy` closes the gap of the first occurrence, and the last place takes the session.
unfoldable pub touch : String → List String → List String
unfolding remove_first occurs
touch id order = if occurs id order then remove_first id order ++ id ∷ [] else order

-- The loop that makes room: it drops the oldest session while there are `max_size` or more.
unfoldable pub evict : ℤ → List String → Map Detector → List String × Map Detector
evict max_size [] detectors = ([], detectors)
evict max_size (oldest ∷ order) detectors =
    let rest = evict max_size order (delete oldest detectors) in
    if leb_ℤ max_size (pos (length (oldest ∷ order))) then rest else (oldest ∷ order, detectors)

-- The registry after `Get`, and the detector.
unfoldable pub get : String → Registry → Registry × Detector
unfolding touch evict new_detector
get id r = elim (lookup id r.detectors) [
  | some d ↦ (record r { order = touch id r.order }, d)
  | none ↦
      let (order, detectors) = evict r.max_size r.order r.detectors in
      let d = new_detector id r.threshold r.max_hashes in
      (record r { order = order ++ id ∷ []; detectors = insert id d detectors }, d)
]

-- A write through the pointer that `Get` has returned; it is seen if the registry still has it.
unfoldable pub write_back : String → Detector → Registry → Registry
write_back id d r = elim (lookup id r.detectors) [
  | none ↦ r
  | some _ ↦ record r { detectors = insert id d r.detectors }
]
