-- ===== src/Scheduling/TimeGraph.antt =====
-- core/scheduling_authority/src/timeGraph.ts. The windows are a dictionary by their ids.
use imip.Base.{ℕ, String, List, [], ◌∷◌, map, filter, ltb, leb, ◌&&◌, Option, none, some}
use imip.Base.Dict.{Dict, put, delete, values}
use imip.Scheduling.Types.{TimeWindow, DelayReason, ExecutionRecord, window}

abbrev pub Windows : Type 0
Windows = Dict TimeWindow

unfoldable pub register_window : TimeWindow → Windows → Windows
register_window w windows = put w.window_id w windows

unfoldable pub remove_window : String → Windows → Windows
remove_window window_id windows = delete window_id windows

unfoldable pub active_windows_at : ℕ → Windows → List TimeWindow
active_windows_at at windows = filter (λ w. leb w.starts_at at && ltb at w.ends_at) (values windows)

-- The reasons; the time is blocked exactly if there is one.
unfoldable pub is_blocked_at : ℕ → Windows → List DelayReason
unfolding active_windows_at
is_blocked_at at windows =
    map (λ w. window w.label w.kind)
      (filter (λ w. w.blocks_execution) (active_windows_at at windows))

abbrev pub last {ℓ} : {A : Type ℓ} → List A → Option A
last [] = none
last (x ∷ []) = some x
last (x ∷ y ∷ xs) = last (y ∷ xs)

abbrev reasons_of : Option ExecutionRecord → List DelayReason
reasons_of none = []
reasons_of (some r) = r.delay_reasons

unfoldable pub why_delayed : List ExecutionRecord → List DelayReason
why_delayed records = reasons_of (last records)
