-- ===== src/Autonomous/Policy.antt =====
-- src/autonomous/policy.ts: the approved standing policy and the task map of the A1 simulation.
use agent_commerce_lab.Prelude.{true, String, [], ◌∷◌}
use agent_commerce_lab.Autonomous.Types.{Policy, TaskMap, sitehealth, vat_api}

abbrev pub sitehealth_payto : String
sitehealth_payto = "0x1866Fd80B1196AcC70A98a50917A8FD4639FE823"

abbrev pub vat_api_payto : String
vat_api_payto = sitehealth_payto

abbrev pub a1_policy : Policy
a1_policy = record {
  version = 1;
  eligible_services =
      record {
        id = sitehealth;
        canonical_url = "https://sitehealth.qzenta.com";
        pay_to = sitehealth_payto;
        price_cents = 1;
        max_per_tx_cents = 100;
      }
      ∷ record {
        id = vat_api;
        canonical_url = "https://vat-api.qzenta.workers.dev";
        pay_to = vat_api_payto;
        price_cents = 1;
        max_per_tx_cents = 25;
      }
      ∷ [];
  ceilings = record {
    per_tx_cents = 100;
    daily_cents = 500;
    monthly_cents = 5000;
    per_service_cents = record { sitehealth_cents = 100; vat_api_cents = 25 };
  };
  retry_limits = record { max_payment_retries = 2; max_service_retries = 3 };
  kill_switch = record { autonomous_commerce_enabled = true; disabled_services = [] };
}

abbrev pub a1_tasks : TaskMap
a1_tasks =
    ("security", sitehealth ∷ [])
    ∷ ("tax", vat_api ∷ [])
    ∷ ("compliance", vat_api ∷ sitehealth ∷ [])
    ∷ ("admin", [])
    ∷ []
