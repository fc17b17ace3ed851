-- ===== src/Api/Answers.antt =====
-- HandleProvisioningStart: its status code tells what became of the daemon.
use arduino_cloud_connector.Common.{
  ◌≡◌, ◌≢◌, ◌⊎◌, inl, inr, refl, String, Bool, not, ◌&&◌, Option, none, some, if◌then◌else◌, arith,
}
use arduino_cloud_connector.Provisioning.{Env, begin_provisioning}
use arduino_cloud_connector.Daemon.{Daemon, parked, running, attempting, is_nil}
use arduino_cloud_connector.Daemon.Restart.{reprovision-Answers}
use arduino_cloud_connector.Api.{
  Response, Decoded, decoded, eof, malformed, start_with, handle_provisioning_start,
}

-- The organisation that a body asks for, if it can be read.
abbrev pub asked : Decoded String → Option String
asked (decoded organization_id) = some organization_id
asked eof = some ""
asked malformed = none

-- 409 and nothing done, or the prelude was run, with 202 exactly if it succeeded and the caller stayed.
abbrev pub Started : Env → String → Bool → Daemon → Response × Daemon → Type 0
Started env organization_id gone d r =
    let begun = begin_provisioning env organization_id d.prov in
    ((r.0.code ≡ 409) × (r.1 ≡ d) × (d.place ≢ parked) × (d.place ≢ running))
    ⊎ (((d.place ≡ parked) ⊎ (d.place ≡ running))
        × (r.0.code ≡ (if is_nil begun.0 && not gone then 202 else 500))
        × (r.1.prov ≡ begun.1)
        × (r.1.place ≡ (if is_nil begun.0 then attempting else parked)))

abbrev pub StartAnswers : Env → Bool → Daemon → Option String → Response × Daemon → Type 0
StartAnswers env gone d none r = (r.0.code ≡ 400) × (r.1 ≡ d)
StartAnswers env gone d (some organization_id) r = Started env organization_id gone d r

start_with-Started :
    (env : Env) (gone : Bool) (organization_id : String) (d : Daemon)
    → Started env organization_id gone d (start_with env gone organization_id d)
start_with-Started env gone organization_id d = elim (reprovision-Answers env organization_id d) [
  | inl (is_busy, same, not_parked, not_running) ↦
      inl (rw is_busy refl, same, not_parked, not_running)
  | inr (place, is_replied, prov, next) ↦ inr (place, rw is_replied (ground arith), prov, next)
]

-- HandleProvisioningStart answers 400 with nothing changed to a body that cannot be read; else it
-- answers 409, with nothing changed, exactly where the daemon is neither waiting in Provisioning
-- nor in Run; else the prelude has run for the organization id of the body, which is empty for an
-- empty body, the attempt follows exactly if the prelude succeeded, and the code is 202 if it did
-- and the caller waited for it, else 500.
pub provisioning_start-StartAnswers :
    (env : Env) (body : Decoded String) (gone : Bool) (d : Daemon)
    → StartAnswers env gone d (asked body) (handle_provisioning_start env body gone d)
unfolding handle_provisioning_start
provisioning_start-StartAnswers env (decoded organization_id) gone d =
    start_with-Started env gone organization_id d
provisioning_start-StartAnswers env eof gone d = start_with-Started env gone "" d
provisioning_start-StartAnswers env malformed gone d = (refl, refl)
