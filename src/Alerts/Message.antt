-- ===== src/Alerts/Message.antt =====
-- The message of an alert's edge (`renderAlert` of src/health/alerts.ts), as UTF-16 units.
use Prim.Native.String.{String}
use openmurmur.Prelude.{ℕ, Bool, true, false, List, [], ◌∷◌, ◌++◌, if◌then◌else◌}
use openmurmur.Prelude.Text.{units, decimal}
use openmurmur.Notification.{trim}
use openmurmur.Alerts.{
  AlertId, recorder_stale, capture_failed, worker_crashed, llm_unavailable, disk_low, asr_backlog,
  dead_jobs, telegram_delivery, keychain_unavailable, digest_missing, Transition, cleared,
}

pub record AlertMessage : Type 0 where
  pub text : List ℕ
  pub delivery_part_id : List ℕ

abbrev pub is_cleared : Transition → Bool
is_cleared cleared = true
is_cleared _ = false

-- The identifier as the code spells it.
abbrev pub name_of : AlertId → String
name_of recorder_stale = "recorder_stale"
name_of capture_failed = "capture_failed"
name_of worker_crashed = "worker_crashed"
name_of llm_unavailable = "llm_unavailable"
name_of disk_low = "disk_low"
name_of asr_backlog = "asr_backlog"
name_of dead_jobs = "dead_jobs"
name_of telegram_delivery = "telegram_delivery"
name_of keychain_unavailable = "keychain_unavailable"
name_of digest_missing = "digest_missing"

-- `body[alertId].up`
abbrev pub up : AlertId → String
up recorder_stale = "🟡 Запись временно недоступна"
up capture_failed = "🔴 Запись остановлена"
up worker_crashed = "🟡 Распознавание на Mac остановилось"
up llm_unavailable = "🟡 Структурный отчёт временно недоступен"
up disk_low = "🟡 Мало места на диске"
up asr_backlog = "🟡 Очередь распознавания растёт"
up dead_jobs = "🔴 Задача OpenMurmur не выполнилась после нескольких попыток"
up telegram_delivery = "🟡 Доставка в Telegram не работает"
up keychain_unavailable = "🟡 Учётные данные Telegram недоступны в Keychain"
up digest_missing = "🟡 Дневной дайджест не сформирован"

-- `body[alertId].down`
abbrev pub down : AlertId → String
down recorder_stale = "🟢 Запись восстановлена"
down capture_failed = "🟢 Запись восстановлена после ошибки захвата"
down worker_crashed = "🟢 Распознавание на Mac восстановлено"
down llm_unavailable = "🟢 Структурные отчёты снова доступны"
down disk_low = "🟢 Место на диске восстановлено"
down asr_backlog = "🟢 Очередь распознавания разобрана"
down dead_jobs = "🟢 Ошибочных задач больше нет"
down telegram_delivery = "🟢 Доставка в Telegram восстановлена"
down keychain_unavailable =
    "🟢 Учётные данные Telegram снова доступны из Keychain — возобновляю попытки доставки."
down digest_missing = "🟢 Дайджест сформирован"

abbrev pub with_detail : List ℕ → List ℕ → List ℕ
with_detail headline [] = headline
with_detail headline (u ∷ us) = headline ++ 10 ∷ 10 ∷ u ∷ us

unfoldable pub render_alert : AlertId → Transition → List ℕ → ℕ → AlertMessage
render_alert id transition detail epoch =
    let is_down = is_cleared transition in
    record {
      text =
          with_detail (units (if is_down then down id else up id))
            (if is_down then [] else trim detail);
      delivery_part_id =
          units "alert:"
          ++ units (name_of id)
          ++ units (if is_down then ":clear:" else ":raise:")
          ++ decimal epoch;
    }
