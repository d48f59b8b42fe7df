-- ===== src/Examples/Caches.antt =====
-- One retrieval result in the cache.
use enterprise_data_copilot.Prelude.{
  ◌≡◌, Text, List, [], codes, if◌then◌else◌, ◌==◌, none, nat_eq, pair_eq,
}
use enterprise_data_copilot.Prelude.Strings.{text_eq}
use enterprise_data_copilot.Retrieval.Cache.{
  hybrid, mode_eq, RetrievalResult, Key, key_of, get, put, invalidate_tenant,
}
use enterprise_data_copilot.Retrieval.Tenants.{get-invalidate_tenant}

abbrev definition : RetrievalResult (List Text)
definition = record {
  query = codes "revenue";
  mode = hybrid;
  corpus_revision = codes "1";
  hits = [];
}

abbrev other_key : Key
other_key = key_of 2 (codes "revenue") (codes "1") hybrid 5

get-invalidate_tenant_example :
    (get 10 other_key (invalidate_tenant 1 (put 300 5 2 definition 5 []))).0
    ≡ (if other_key.0 == 1 then none else (get 10 other_key (put 300 5 2 definition 5 [])).0)
get-invalidate_tenant_example = get-invalidate_tenant 10 1 other_key (put 300 5 2 definition 5 [])
