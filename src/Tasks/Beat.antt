-- ===== src/Tasks/Beat.antt =====
-- `app.conf.beat_schedule` of app/tasks/celery_app.py: which task Celery starts, and when. The names
-- are those of the `@app.task` decorators.
use price_monitoring_service.Prelude.{ℕ, ◌*◌, String, Option, none, some, List, [], ◌∷◌}
use price_monitoring_service.Env.{Settings}

-- every so many seconds, or at an hour and a minute in UTC, every day or on one day of the month
pub data Schedule : Type 0 where
  seconds : ℕ → Schedule
  crontab : Option ℕ → ℕ → ℕ → Schedule

pub record Entry : Type 0 where
  pub name : String
  pub task : String
  pub schedule : Schedule

abbrev pub beat_schedule : Settings → List Entry
beat_schedule settings =
    record {
      name = "fetch-prices";
      task = "tasks.fetch_prices";
      schedule = seconds (settings.fetch_prices_interval_hours * 3600);
    }
    ∷ record {
      name = "check-price-alerts";
      task = "tasks.check_price_alerts";
      schedule = seconds (settings.check_alerts_interval_minutes * 60);
    }
    ∷ record {
      name = "sync-exchange-rates";
      task = "tasks.sync_exchange_rates";
      schedule = crontab none settings.sync_rates_cron_hour 0;
    }
    ∷ record {
      name = "create-price-history-partition-monthly";
      task = "tasks.create_price_history_partition";
      schedule = crontab (some 1) 0 5;
    }
    ∷ []
