-- ===== src/Bindings/ChainedPtr/Runs.antt =====
-- The layouts at concrete fields.
use dynld.Prelude.{◌≡◌, arith, ◌==◌}
use dynld.Bindings.ChainedPtr.{import_lib_ordinal, import_weak_import, import_name_offset}
use dynld.Bindings.ChainedPtr.Layout.{pack_import, import-pack}

import-pack_example :
    (import_lib_ordinal (pack_import 253 1 77) ≡ 253)
    × (import_weak_import (pack_import 253 1 77) ≡ (1 == 1))
    × (import_name_offset (pack_import 253 1 77) ≡ 77)
import-pack_example = import-pack 253 1 77 (omega arith) (omega arith) (omega arith)
