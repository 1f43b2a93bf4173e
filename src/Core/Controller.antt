-- ===== src/Core/Controller.antt =====
-- core/controller.cc: the Controller that adds threads under load. Loads are C's long, as integers
-- without a bound; a thread is its number.
pub mod Runs
use tube.Common.{
  ℕ, zero, suc, ◌+◌, ◌-◌, ◌/◌, Bool, true, false, List, [], ◌∷◌, ◌++◌, ltb, leb, not, ◌&&◌, ◌||◌,
  ◌==◌, if◌then◌else◌, length, take, drop,
}
use tube.Common.Int.{ℤ, pos, ltb_ℤ, ◌+ℤ◌, ◌-ℤ◌}

pub record Controller : Type 0 where
  pub reserve : ℕ
  pub auto_threads : List ℕ
  pub load_history : List ℤ
  pub current_load : ℤ
  pub current_speed : ℤ
  pub best_speed : ℤ
  pub best_threads_size : ℕ

abbrev pub max_feedback : ℕ
max_feedback = 16

abbrev pub min_feedback : ℕ
min_feedback = 8

abbrev pub min_load : ℤ
min_load = pos 15

abbrev pub max_thread : ℕ
max_thread = 128

pub new_controller : Controller
new_controller = record {
  reserve = 0;
  auto_threads = [];
  load_history = [];
  current_load = pos 0;
  current_speed = pos 0;
  best_speed = pos 0;
  best_threads_size = 0;
}

abbrev pub is_in : ℕ → List ℕ → Bool
is_in id [] = false
is_in id (t ∷ ts) = if t == id then true else is_in id ts

abbrev pub remove : ℕ → List ℕ → List ℕ
remove id [] = []
remove id (t ∷ ts) = if t == id then ts else t ∷ remove id ts

-- insert of a std::set, whose order is not looked at
abbrev pub insert : ℕ → List ℕ → List ℕ
insert id ts = if is_in id ts then ts else id ∷ ts

pub is_auto_created : ℕ → Controller → Bool
is_auto_created id c = is_in id c.auto_threads

pub exit_auto_thread : ℕ → Controller → Controller
exit_auto_thread id c = record c { auto_threads = remove id c.auto_threads }

pub increase_load : ℤ → Controller → Controller
increase_load inc c = record c { current_load = c.current_load +ℤ inc }

pub decrease_load : ℤ → Controller → Controller
decrease_load dec c = record c {
  current_load = c.current_load -ℤ dec;
  current_speed = c.current_speed +ℤ dec;
}

pub push_history : List ℤ → ℤ → List ℤ
push_history history load =
    (if length history == max_feedback then drop 1 history else history) ++ load ∷ []

abbrev pub sum : List ℤ → ℤ
sum [] = pos 0
sum (l ∷ ls) = l +ℤ sum ls

abbrev pub any_below : List ℤ → Bool
any_below [] = false
any_below (l ∷ ls) = if ltb_ℤ l min_load then true else any_below ls

-- The loop over the history: the first half summed, the second half too unless a load in it is
-- small; the middle of an odd history is left out.
pub is_loaded : List ℤ → Bool
is_loaded history =
    let last = take (length history / 2) history in
    let now = drop ((length history + 1) / 2) history in
    if any_below now then false else not (ltb_ℤ (sum now) (sum last))

-- What check_auto_create records before it decides.
pub record_load : Controller → Controller
record_load c =
    let faster = ltb_ℤ c.best_speed c.current_speed in
    record c {
      load_history = push_history c.load_history c.current_load;
      best_speed = if faster then c.current_speed else c.best_speed;
      best_threads_size = if faster then length c.auto_threads else c.best_threads_size;
      current_speed = pos 0;
    }

-- The reasons not to add a thread, in the order of the source.
pub refuses : Controller → Bool
refuses c =
    ltb max_thread (length c.auto_threads)
    || (ltb (length c.load_history) min_feedback
        || (ltb c.best_threads_size (length c.auto_threads) || not (is_loaded c.load_history)))

pub decide : Controller → Bool × Controller
decide c =
    if ltb 0 c.reserve
    then (false, record c { reserve = c.reserve - 1 })
    else if refuses c
    then (false, c)
    else (true, record c { reserve = max_feedback })

pub check_auto_create : Controller → Bool × Controller
check_auto_create c = decide (record_load c)

pub start_thread : ℕ → Bool × Controller → Bool × Controller
start_thread id (false, c) = (false, c)
start_thread id (true, c) = (true, record c { auto_threads = insert id c.auto_threads })

-- One turn of check_thread; a thread that it starts has the given number.
pub check_thread : ℕ → Controller → Bool × Controller
check_thread id c = start_thread id (check_auto_create c)
