-- ===== src/Examples/ApiRuns.antt =====
-- One upload, one generation from the CRM, and one deletion.
use allocation_key_generatio.Base.{
  ℕ, ◌≡◌, refl, true, false, none, some, List, [], ◌∷◌, ◌*◌, ◌==◌, if◌then◌else◌,
}
use allocation_key_generatio.Base.Text.{codes}
use allocation_key_generatio.Worker.Persistence.{commits}
use allocation_key_generatio.Api.World.{Database, served}
use allocation_key_generatio.Api.Env.{RequestEnv, stored, not_published}
use allocation_key_generatio.Api.Upload.{read_within_cap, body, capped, read_within_cap-eq-capped}
use allocation_key_generatio.Api.Start.{
  GenerateRequest, UploadFile, upload_name, storage_key_of, start_generation,
}
use allocation_key_generatio.Api.Start.Recovery.{Ended}
use allocation_key_generatio.Api.Start.Outcome.{queue_of, start_generation-Ended}
use allocation_key_generatio.Api.FromCrm.{
  GenerateFromCrmRequest, CrmReads, start_generation_from_crm,
}
use allocation_key_generatio.Api.FromCrm.Verdict.{Judged, start_generation_from_crm-Judged}
use allocation_key_generatio.Api.Keys.{save_key, delete_generation, delete_key}
use allocation_key_generatio.Api.Keys.Scope.{
  GoneOrSame, served-audits, delete_generation-GoneOrSame,
}
use allocation_key_generatio.Api.Keys.Saved.{CopiedOrSame, save_key-CopiedOrSame}
use allocation_key_generatio.Worker.World.{AllocationKeyGeneratedModel}
use allocation_key_generatio.Examples.Millis.{pos, millis}
use allocation_key_generatio.Examples.CrmRuns.{readings}

abbrev chunks : List (List ℕ)
chunks = (65 ∷ 44 ∷ []) ∷ (66 ∷ []) ∷ []

read_within_cap-eq-capped_example : read_within_cap chunks 2 ≡ capped 2 (body chunks)
read_within_cap-eq-capped_example = read_within_cap-eq-capped chunks 2 ((λ h. cc), ((λ h. cc), tt))

abbrev env : RequestEnv
env = record {
  metadata = λ name. some (record {
    name = name;
    version = codes "1.0";
    queue = codes "optimce.allocation.brute_force";
  });
  validate = λ name inputs. some inputs;
  measure = λ content name. some (2, 1);
  uuid = codes "u";
  upload = stored;
  commit = commits;
  audit_works = true;
  publish = not_published;
  publish_error = codes "timeout";
  marking = record {
    read_raises = false;
    commit = commits;
    audit_works = true;
    audit_commit_raises = false;
  };
  deletes = true;
}

abbrev empty_database : Database millis
empty_database = record {
  generations = λ k. none;
  next_id = 7;
  keys = λ k. none;
  staged_audits = [];
  staged_keys = [];
  audits = [];
  crm_keys = [];
  objects = [];
  events = [];
}

abbrev upload_request : GenerateRequest
upload_request = record {
  name = codes "june";
  algorithm_name = codes "brute_force";
  inputs = codes "1";
  injection_name = codes "pv";
}

abbrev upload_file : UploadFile
upload_file = record { filename = some (codes "june.csv"); chunks = chunks }

start_generation-Ended_example :
    Ended env
      (queue_of (env.metadata upload_request.algorithm_name))
      (storage_key_of 4 env.uuid (upload_name upload_file.filename))
      empty_database
      (start_generation env upload_request upload_file 4 empty_database)
start_generation-Ended_example =
    start_generation-Ended env upload_request upload_file 4 empty_database refl

abbrev crm : CrmReads millis
crm = record {
  sharing_operation_exists = λ community op. true;
  meter_consumption = readings;
  midnight = λ day. day * 86400;
}

abbrev crm_request : GenerateFromCrmRequest
crm_request = record {
  name = codes "june";
  algorithm_name = codes "brute_force";
  inputs = codes "1";
  id_sharing_operation = 2;
  period_start = 0;
  period_end = 0;
}

start_generation_from_crm-Judged_example :
    Judged env crm crm_request 4 empty_database
      (start_generation_from_crm env crm crm_request 4 empty_database)
start_generation_from_crm-Judged_example =
    start_generation_from_crm-Judged env crm crm_request 4 empty_database

served-audits_example :
    ((served (save_key commits true 4 1) empty_database).1.audits ≡ [])
    × ((served (delete_generation commits true 4 1) empty_database).1.audits ≡ [])
    × ((served (delete_key commits true 4 1) empty_database).1.audits ≡ [])
served-audits_example = served-audits commits true 4 1 empty_database refl

delete_generation-GoneOrSame_example :
    GoneOrSame 4 7 empty_database.generations
      (served (delete_generation commits true 4 7) empty_database).1.generations
delete_generation-GoneOrSame_example = delete_generation-GoneOrSame commits true 4 7 empty_database

abbrev stored_key : AllocationKeyGeneratedModel millis
stored_key = record {
  name = codes "egalitaire";
  description = codes "one";
  surplus_total = pos 0;
  id_generation = 7;
  id_community = 4;
  iterations =
      record {
        number = 1;
        energy_allocated_percentage = pos 1000;
        surplus_total = pos 0;
        id_community = 4;
        consumers =
            record { name = codes "A"; energy_allocated_percentage = pos 500; id_community = 4 }
            ∷ record { name = codes "B"; energy_allocated_percentage = pos 500; id_community = 4 }
            ∷ [];
      }
      ∷ [];
}

abbrev key_database : Database millis
key_database = record empty_database { keys = λ k. if k == 1 then some stored_key else none }

save_key-CopiedOrSame_example :
    CopiedOrSame 4 1 key_database (served (save_key commits true 4 1) key_database)
save_key-CopiedOrSame_example = save_key-CopiedOrSame commits true 4 1 key_database refl
