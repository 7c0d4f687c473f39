-- ===== src/Platform/Logger.antt =====
-- The logger: src/logger.c and include/logger.h. The logger's function pointer is a number that
-- stands for the function, `none` for NULL. The text buffer of 4096 bytes is taken to suffice: the
-- texts that the library logs are below a hundred.
use Prim.Native.String.{String, ◌++◌ as ◌<>◌}
use lora_driver_with_network.Prelude.{ℕ, Option, ◌∷◌, leb, ◌==◌, if◌then◌else◌}
use lora_driver_with_network.Platform.{
  LogLevel, uninitialized, log_info_low, log_info, log_info_high, log_error, History, logged,
}

-- The number that the C enumeration gives each level.
unfoldable pub level_code : LogLevel → ℕ
level_code uninitialized = 0
level_code log_info_low = 1
level_code log_info = 2
level_code log_info_high = 3
level_code log_error = 4

pub record LoggerCtx : Type 0 where
  pub logger : Option ℕ
  pub log_level : LogLevel

unfoldable pub logger_init : Option ℕ → LogLevel → LoggerCtx
logger_init logger log_level = record { logger = logger; log_level = log_level }

unfoldable pub logger_set_level : LoggerCtx → LogLevel → LoggerCtx
logger_set_level ctx level = record ctx { log_level = level }

unfoldable pub network_log : LoggerCtx → String → LogLevel → History → History
unfolding level_code
network_log ctx str param_log_level h =
    if level_code ctx.log_level == level_code uninitialized
    then h
    else if leb (level_code ctx.log_level) (level_code param_log_level)
    then logged ctx.logger str param_log_level ∷ h
    else h

unfoldable pub network_log_with_tag : LoggerCtx → String → String → LogLevel → History → History
unfolding network_log
network_log_with_tag ctx tag str param_log_level h =
    network_log ctx (tag <> ": " <> str) param_log_level h

unfoldable pub network_log_err : LoggerCtx → String → String → History → History
unfolding network_log_with_tag
network_log_err ctx tag str h = network_log_with_tag ctx tag str log_error h
