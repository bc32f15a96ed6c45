-- ===== src/Log/Reserve.antt =====
-- The reservation of log space in `begin_op` is enough: no operation makes `log_write` panic.
use cpsc.Log.{Log}
