-- ===== src/Core/Watermark.antt =====
-- packages/core/src/watermark/sync-watermark-store.ts: the cursor of each flow of a connection.
use Prim.Native.String.{◌++◌}
use dp_integrator.Base.{ℕ, String, Option, some, M, pure}
use dp_integrator.Base.Dict.{Dict}
use dp_integrator.Base.Dict
use dp_integrator.Core.Types.{Environment, environment_text}

pub record SyncWatermarkRow : Type 0 where
  pub environment : Environment
  pub connection_id : String
  pub flow : String
  pub last_cursor : Option String
  pub updated_at : ℕ

abbrev pub Watermarks : Type 0
Watermarks = Dict SyncWatermarkRow

unfoldable pub watermark_key : Environment → String → String → String
watermark_key env connection_id flow =
    environment_text env ++ ("|" ++ (connection_id ++ ("|" ++ flow)))

unfoldable pub get : Environment → String → String → Watermarks → Option SyncWatermarkRow
get env connection_id flow rows = Dict.get (watermark_key env connection_id flow) rows

unfoldable pub set : Environment → String → String → String → ℕ → M Watermarks SyncWatermarkRow
set env connection_id flow cursor now rows =
    let row : SyncWatermarkRow = record {
      environment = env;
      connection_id = connection_id;
      flow = flow;
      last_cursor = some cursor;
      updated_at = now;
    } in
    pure row (Dict.set (watermark_key env connection_id flow) row rows)
